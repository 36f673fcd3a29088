-- ===== src/Hub/Room/Invariant.antt =====
-- What is kept in a room (hub/chatroom.go) as long as no id is given out twice.
use websockethub.Base.{
  ℕ, ◌≤◌, ◌≡◌, refl, sym, ◌∙◌, ◌⊎◌, inl, inr, false, Option, none, some, ◌==◌, ==_iff, Bool-cases,
}
use websockethub.Hub.Room.{
  Handler, joining, inserting, listening, reading, checking, closing, leaving, left, Writer,
  sending, dropping, Session, Room, update, set_session,
}

-- The id of a connection, once it has one.
abbrev pub id_of : Handler → Option ℕ
id_of joining = none
id_of (inserting i) = some i
id_of (listening i) = some i
id_of (reading i) = some i
id_of (checking i) = some i
id_of (closing i) = some i
id_of (leaving i) = some i
id_of (left i) = some i

-- Once it has been put into the map.
abbrev pub inserted : Handler → Option ℕ
inserted (inserting i) = none
inserted h = id_of h

abbrev pub writer_id : Writer → Option ℕ
writer_id (sending i) = some i
writer_id (dropping i) = some i
writer_id _ = none

-- In the map and connected, or out of it and hung up once.
abbrev pub IsHeld : (ℕ → Option ℕ) → ℕ → Session → ℕ → Type 0
IsHeld clients k s i = (clients i ≡ some k) × (s.hangups ≡ 0)

abbrev pub IsGone : (ℕ → Option ℕ) → ℕ → Session → ℕ → Type 0
IsGone clients k s i = (clients i ≡ none) × (s.hangups ≡ 1)

-- A connection, by the counter of ids and the map.
pub record IsFine (n : ℕ) (clients : ℕ → Option ℕ) (k : ℕ) (s : Session) : Type 0 where
  pub bound : (i : ℕ) → id_of s.handler ≡ some i → i ≤ n
  pub before : inserted s.handler ≡ none → s.hangups ≡ 0
  pub inside : (i : ℕ) → inserted s.handler ≡ some i → IsHeld clients k s i ⊎ IsGone clients k s i
  pub forgotten : (i : ℕ) → s.handler ≡ left i → clients i ≡ none
  pub writes : (i : ℕ) → writer_id s.writer ≡ some i → inserted s.handler ≡ some i

pub record IsKept (r : Room) : Type 0 where
  pub fine : (k : ℕ) → IsFine r.numclients r.clients k (r.sessions k)
  pub unique :
      (k l i : ℕ)
      → id_of (r.sessions k).handler ≡ some i
      → id_of (r.sessions l).handler ≡ some i
      → k ≡ l
  pub owner : (i k : ℕ) → r.clients i ≡ some k → inserted (r.sessions k).handler ≡ some i
  pub purged : (i k : ℕ) → r.purging i ≡ some k → inserted (r.sessions k).handler ≡ some i

-- Nothing changes in the map, and of the connections only where they are.
pub record Same (r v : Room) : Type 0 where
  pub ids : (l : ℕ) → id_of (v.sessions l).handler ≡ id_of (r.sessions l).handler
  pub places : (l : ℕ) → inserted (v.sessions l).handler ≡ inserted (r.sessions l).handler
  pub hangups : (l : ℕ) → (v.sessions l).hangups ≡ (r.sessions l).hangups
  pub leaves : (l i : ℕ) → (v.sessions l).handler ≡ left i → r.clients i ≡ none
  pub writers :
      (l i : ℕ)
      → writer_id (v.sessions l).writer ≡ some i
      → inserted (r.sessions l).handler ≡ some i
  pub clients : (i : ℕ) → v.clients i ≡ r.clients i
  pub purging : (i k : ℕ) → v.purging i ≡ some k → (r.purging i ≡ some k) ⊎ (r.clients i ≡ some k)
  pub numclients : v.numclients ≡ r.numclients

pub IsKept-Same : (r v : Room) → Same r v → IsKept r → IsKept v
IsKept-Same r v s h = record {
  fine = λ k. record {
    bound = λ i e. rw (s.numclients) ((h.fine k).bound i (sym (s.ids k) ∙ e));
    before = λ e. s.hangups k ∙ (h.fine k).before (sym (s.places k) ∙ e);
    inside = λ i e. rw (s.clients i, s.hangups k) ((h.fine k).inside i (sym (s.places k) ∙ e));
    forgotten = λ i e. s.clients i ∙ s.leaves k i e;
    writes = λ i e. s.places k ∙ s.writers k i e;
  };
  unique = λ k l i e f. h.unique k l i (sym (s.ids k) ∙ e) (sym (s.ids l) ∙ f);
  owner = λ i k e. s.places k ∙ h.owner i k (sym (s.clients i) ∙ e);
  purged = λ i k e.
      s.places k ∙ elim (s.purging i k e) [ inl p ↦ h.purged i k p | inr c ↦ h.owner i k c ];
}

-- A connection goes on without touching the map.
pub record GoesOn (r : Room) (k : ℕ) (s : Session) : Type 0 where
  pub same_id : id_of s.handler ≡ id_of (r.sessions k).handler
  pub same_place : inserted s.handler ≡ inserted (r.sessions k).handler
  pub same_hangups : s.hangups ≡ (r.sessions k).hangups
  pub leaves : (i : ℕ) → s.handler ≡ left i → r.clients i ≡ none
  pub writers : (i : ℕ) → writer_id s.writer ≡ some i → inserted (r.sessions k).handler ≡ some i

-- To show something of all connections after one has changed, show it of that one.
pub update-cases :
    (P : ℕ → Session → Type 0) (f : ℕ → Session) (k : ℕ) (s : Session)
    → P k s
    → ((l : ℕ) → (l == k) ≡ false → P l (f l))
    → (l : ℕ) → P l (update f k s l)
update-cases P f k s h hs l = elim (Bool-cases (l == k)) [
  | inl e ↦ rw (e, (==_iff l k).0 e) h
  | inr n ↦ rw n (hs l n)
]

pub IsKept-GoesOn :
    (r : Room) (k : ℕ) (s : Session) → GoesOn r k s → IsKept r → IsKept (set_session k s r)
IsKept-GoesOn r k s on h =
    IsKept-Same r (set_session k s r)
      (record {
        ids =
            update-cases (λ l t. id_of t.handler ≡ id_of (r.sessions l).handler) r.sessions k s
              on.same_id (λ l n. refl);
        places =
            update-cases (λ l t. inserted t.handler ≡ inserted (r.sessions l).handler) r.sessions k
              s on.same_place (λ l n. refl);
        hangups =
            update-cases (λ l t. t.hangups ≡ (r.sessions l).hangups) r.sessions k s on.same_hangups
              (λ l n. refl);
        leaves =
            update-cases (λ l t. (i : ℕ) → t.handler ≡ left i → r.clients i ≡ none) r.sessions k s
              on.leaves (λ l n. (h.fine l).forgotten);
        writers =
            update-cases
              (λ l t.
                (i : ℕ) → writer_id t.writer ≡ some i → inserted (r.sessions l).handler ≡ some i)
              r.sessions k s on.writers (λ l n. (h.fine l).writes);
        clients = λ i. refl;
        purging = λ i l e. inl e;
        numclients = refl;
      })
      h
