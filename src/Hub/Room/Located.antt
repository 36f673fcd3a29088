-- ===== src/Hub/Room/Located.antt =====
-- One step of a connection at a time: `Close` of hub/client.go tests the channel and closes it in two
-- operations.
use websockethub.Base.{
  ℕ, ◌≡◌, refl, sym, ◌∙◌, ap, inl, inr, Bool, true, false, ◌==◌, ==_iff, if◌then◌else◌,
  Option-cases,
}
use mathlib.Core.Path.{subst}
use websockethub.Hub.Room.{
  Handler, reading, checking, closing, leaving, left, Writer, sending, dropping, testing, shutting,
  ended, Session, Room, set_session, hang_up, del_client, handler_step, writer_step, fail_read,
  fail_write, Move, handles, writes, read_fails, write_fails, next, move,
}

-- Where a connection of a room is whose server goes on.
pub record IsAt (r : Room) (k : ℕ) (h : Handler) (w : Writer) (c : Bool) : Type 0 where
  pub alive : r.panicked ≡ false
  pub handler : (r.sessions k).handler ≡ h
  pub writer : (r.sessions k).writer ≡ w
  pub closed : (r.sessions k).closed ≡ c

module _ (r : Room) (k : ℕ) where
  set_session-IsAt :
      (s : Session) (h : Handler) (w : Writer) (c : Bool)
      → r.panicked ≡ false
      → s.handler ≡ h
      → s.writer ≡ w
      → s.closed ≡ c
      → IsAt (set_session k s r) k h w c
  set_session-IsAt s h w c a p q o =
      let e : (k == k) ≡ true = (==_iff k k).1 refl in
      record { alive = a; handler = rw e p; writer = rw e q; closed = rw e o }

  del_client-IsAt :
      (verbose : Bool) (i : ℕ) (h : Handler) (w : Writer) (c : Bool)
      → IsAt r k h w c
      → IsAt (del_client verbose i k r) k h w c
  unfolding del_client
  del_client-IsAt verbose i h w c a = elim (Option-cases (r.clients i)) [
    | inl n ↦ rw (n, del_client) a
    | inr (d, e) ↦
        let at =
          set_session-IsAt (hang_up (r.sessions k)) h w c a.alive a.handler a.writer a.closed in
        rw (e, del_client)
          (record {
            alive = at.alive;
            handler = at.handler;
            writer = at.writer;
            closed = at.closed;
          })
  ]

-- One step of a server that goes on.
move-next :
    (verbose : Bool) (r v : Room) (m : Move)
    → r.panicked ≡ false
    → next verbose r m ≡ v
    → move verbose r m ≡ v
unfolding move
move-next verbose r v m a e = pick r.panicked a
  where
    pick : (b : Bool) → b ≡ false → (if b then r else next verbose r m) ≡ v
    pick true f = absurd (cc)
    pick false f = e

module _ (verbose : Bool) (r : Room) (k i : ℕ) where
  go :
      (h h' : Handler) (w w' : Writer) (c c' : Bool) (m : Move) (v : Room)
      → IsAt r k h w c
      → next verbose r m ≡ v
      → IsAt v k h' w' c'
      → IsAt (move verbose r m) k h' w' c'
  go h h' w w' c c' m v a e b =
      subst (λ u. IsAt u k h' w' c') (sym (move-next verbose r v m a.alive e)) b

  pub write_fails-IsAt :
      (h : Handler) (c : Bool)
      → IsAt r k h (sending i) c
      → IsAt (move verbose r (write_fails k)) k h (dropping i) c
  unfolding fail_write
  write_fails-IsAt h c a =
      go h h (sending i) (dropping i) c c (write_fails k) _ a (ap (λ t. fail_write k t r) a.writer)
        (set_session-IsAt r k _ h (dropping i) c a.alive a.handler refl a.closed)

  pub drops-IsAt :
      (h : Handler) (c : Bool)
      → IsAt r k h (dropping i) c
      → IsAt (move verbose r (writes k)) k h testing c
  unfolding writer_step
  drops-IsAt h c a =
      let b = del_client-IsAt r k verbose i h (dropping i) c a in
      go h h (dropping i) testing c c (writes k) _ a (ap (λ t. writer_step verbose k t r) a.writer)
        (set_session-IsAt (del_client verbose i k r) k _ h testing c b.alive b.handler refl
          b.closed)

  pub read_fails-IsAt :
      (w : Writer) (c : Bool)
      → IsAt r k (reading i) w c
      → IsAt (move verbose r (read_fails k)) k (checking i) w c
  unfolding fail_read
  read_fails-IsAt w c a =
      go (reading i) (checking i) w w c c (read_fails k) _ a (ap (λ t. fail_read k t r) a.handler)
        (set_session-IsAt r k _ (checking i) w c a.alive refl a.writer a.closed)

  pub checks-IsAt :
      (w : Writer)
      → IsAt r k (checking i) w false
      → IsAt (move verbose r (handles k)) k (closing i) w false
  unfolding handler_step
  checks-IsAt w a =
      go (checking i) (closing i) w w false false (handles k) _ a
        (ap (λ t. handler_step verbose k t r) a.handler)
        (set_session-IsAt r k _ (closing i) w false a.alive (rw a.closed refl) a.writer a.closed)

  pub tests-IsAt :
      (h : Handler) → IsAt r k h testing false → IsAt (move verbose r (writes k)) k h shutting false
  unfolding writer_step
  tests-IsAt h a =
      go h h testing shutting false false (writes k) _ a
        (ap (λ t. writer_step verbose k t r) a.writer)
        (set_session-IsAt r k _ h shutting false a.alive a.handler (rw a.closed refl) a.closed)

  pub closes-IsAt :
      (w : Writer)
      → IsAt r k (closing i) w false
      → IsAt (move verbose r (handles k)) k (leaving i) w true
  unfolding handler_step
  closes-IsAt w a =
      let s = record (r.sessions k) { handler = leaving i; closed = true } in
      go (closing i) (leaving i) w w false true (handles k) (set_session k s r) a
        (ap (λ t. handler_step verbose k t r) a.handler ∙ rw (a.closed) refl)
        (set_session-IsAt r k s (leaving i) w true a.alive refl a.writer refl)

  pub shuts-panics :
      (h : Handler) → IsAt r k h shutting true → (move verbose r (writes k)).panicked ≡ true
  unfolding writer_step
  shuts-panics h a =
      ap (λ (v : Room). v.panicked)
        (move-next verbose r (record r { panicked = true }) (writes k) a.alive
          (ap (λ t. writer_step verbose k t r) a.writer ∙ rw (a.closed) refl))

  pub shuts-IsAt :
      (h : Handler) → IsAt r k h shutting false → IsAt (move verbose r (writes k)) k h ended true
  unfolding writer_step
  shuts-IsAt h a =
      let s = record (r.sessions k) { writer = ended; closed = true } in
      go h h shutting ended false true (writes k) (set_session k s r) a
        (ap (λ t. writer_step verbose k t r) a.writer ∙ rw (a.closed) refl)
        (set_session-IsAt r k s h ended true a.alive a.handler refl refl)

  pub shuts_first-IsAt :
      (w : Writer) → IsAt r k (closing i) w true → (move verbose r (handles k)).panicked ≡ true
  unfolding handler_step
  shuts_first-IsAt w a =
      ap (λ (v : Room). v.panicked)
        (move-next verbose r (record r { panicked = true }) (handles k) a.alive
          (ap (λ t. handler_step verbose k t r) a.handler ∙ rw (a.closed) refl))

  pub passes-IsAt :
      (h : Handler) → IsAt r k h testing true → IsAt (move verbose r (writes k)) k h ended true
  unfolding writer_step
  passes-IsAt h a =
      go h h testing ended true true (writes k) _ a (ap (λ t. writer_step verbose k t r) a.writer)
        (set_session-IsAt r k _ h ended true a.alive a.handler (rw a.closed refl) a.closed)

  pub skips-IsAt :
      (w : Writer)
      → IsAt r k (checking i) w true
      → IsAt (move verbose r (handles k)) k (leaving i) w true
  unfolding handler_step
  skips-IsAt w a =
      go (checking i) (leaving i) w w true true (handles k) _ a
        (ap (λ t. handler_step verbose k t r) a.handler)
        (set_session-IsAt r k _ (leaving i) w true a.alive (rw a.closed refl) a.writer a.closed)

  pub leaves-IsAt :
      (w : Writer) (c : Bool)
      → IsAt r k (leaving i) w c
      → IsAt (move verbose r (handles k)) k (left i) w c
  unfolding handler_step
  leaves-IsAt w c a =
      let b = del_client-IsAt r k verbose i (leaving i) w c a in
      go (leaving i) (left i) w w c c (handles k) _ a
        (ap (λ t. handler_step verbose k t r) a.handler)
        (set_session-IsAt (del_client verbose i k r) k _ (left i) w c b.alive refl b.writer
          b.closed)
