-- ===== src/Hub/Room/Steps.antt =====
-- Every step of the connections of a room (hub/chatroom.go) keeps what holds of its clients.
use websockethub.Base.{
  ℕ, ◌+◌, ◌<◌, ◌≡◌, refl, sym, ◌∙◌, ap, inl, inr, Bool, true, none, some, arith, Bool-cases,
}
use websockethub.Hub.Counter.{range}
use websockethub.Hub.Room.{
  Handler, joining, inserting, listening, reading, checking, closing, leaving, left, Writer, unborn,
  sending, dropping, testing, shutting, ended, Session, Room, set_session, del_client,
  close_channel, handler_step, writer_step, fail_read, fail_write, fall_behind,
}
use websockethub.Hub.Room.Invariant.{id_of, inserted, writer_id, IsKept, GoesOn, IsKept-GoesOn}
use websockethub.Hub.Room.Joining.{joining-IsKept}
use websockethub.Hub.Room.Changes.{
  inserting-IsKept, del_client-IsKept, del_client-forgets, del_client-handler,
}

-- A handler that takes an id.
abbrev pub joins : Handler → ℕ
joins joining = 1
joins _ = 0

module _ (verbose : Bool) (k : ℕ) where
  counted : (r : Room) (n : ℕ) → IsKept r → IsKept (record r { connectedclients = n })
  counted r n h = record { fine = h.fine; unique = h.unique; owner = h.owner; purged = h.purged }

  close_channel-IsKept :
      (s : Session) (r : Room)
      → GoesOn r k (record s { closed = true })
      → IsKept r
      → IsKept (close_channel k s r)
  close_channel-IsKept s r on h = elim (Bool-cases (r.sessions k).closed) [
    | inl e ↦ rw e (record { fine = h.fine; unique = h.unique; owner = h.owner; purged = h.purged })
    | inr e ↦ rw e (IsKept-GoesOn r k (record s { closed = true }) on h)
  ]

  -- The handler goes on.
  goes_on :
      (r : Room) (s t : Handler) (b : Bool)
      → IsKept r
      → (r.sessions k).handler ≡ s
      → id_of t ≡ id_of s
      → inserted t ≡ inserted s
      → ((i : ℕ) → t ≡ left i → r.clients i ≡ none)
      → GoesOn r k (record (r.sessions k) { handler = t; closed = b })
  goes_on r s t b h at a p l = record {
    same_id = a ∙ sym (ap id_of at);
    same_place = p ∙ sym (ap inserted at);
    same_hangups = refl;
    leaves = l;
    writers = (h.fine k).writes;
  }

  pub handler_step-IsKept :
      (r : Room)
      → IsKept r
      → (s : Handler) → (r.sessions k).handler ≡ s
      → r.numclients + joins s < range
      → IsKept (handler_step verbose k s r)
  unfolding handler_step
  handler_step-IsKept r h joining at room = joining-IsKept r k h at (omega arith)
  handler_step-IsKept r h (inserting i) at room = inserting-IsKept r k i h at
  handler_step-IsKept r h (listening i) at room =
      IsKept-GoesOn _ k _
        (goes_on (record r { connectedclients = _ }) (listening i) (reading i) _ (counted r _ h) at
          refl refl (λ j e. absurd (cc)))
        (counted r _ h)
  handler_step-IsKept r h (reading i) at room = h
  handler_step-IsKept r h (checking i) at room = elim (Bool-cases (r.sessions k).closed) [
    | inl e ↦ rw e (
        IsKept-GoesOn r k _
          (goes_on r (checking i) (leaving i) _ h at refl refl (λ j f. absurd (cc))) h)
    | inr e ↦ rw e (
        IsKept-GoesOn r k _
          (goes_on r (checking i) (closing i) _ h at refl refl (λ j f. absurd (cc))) h)
  ]
  handler_step-IsKept r h (closing i) at room =
      close_channel-IsKept (record (r.sessions k) { handler = leaving i }) r
        (goes_on r (closing i) (leaving i) true h at refl refl (λ j f. absurd (cc))) h
  handler_step-IsKept r h (leaving i) at room =
      let place = ap inserted at in
      let after = del_client verbose i k r in
      IsKept-GoesOn after k _
        (goes_on after (leaving i) (left i) _ (del_client-IsKept verbose r k i h place)
          (del_client-handler verbose r k i h place k ∙ at) refl refl
          (λ j f.
            let e : i ≡ j = cc in
            ap after.clients (sym e) ∙ del_client-forgets verbose r k i h place))
        (del_client-IsKept verbose r k i h place)
  handler_step-IsKept r h (left i) at room = h

  -- The writer goes on.
  writer_on :
      (r : Room) (t : Writer) (b : Bool)
      → IsKept r
      → ((i : ℕ) → writer_id t ≡ some i → writer_id (r.sessions k).writer ≡ some i)
      → GoesOn r k (record (r.sessions k) { writer = t; closed = b })
  writer_on r t b h w = record {
    same_id = refl;
    same_place = refl;
    same_hangups = refl;
    leaves = (h.fine k).forgotten;
    writers = λ i e. (h.fine k).writes i (w i e);
  }

  -- It has no client to send to any more.
  writer_ends :
      (r : Room) (t : Writer) (b : Bool)
      → IsKept r
      → writer_id t ≡ none
      → IsKept (set_session k (record (r.sessions k) { writer = t; closed = b }) r)
  writer_ends r t b h n = IsKept-GoesOn r k _ (writer_on r t b h (λ i e. absurd (cc (n, e)))) h

  pub writer_step-IsKept :
      (r : Room)
      → IsKept r
      → (t : Writer) → (r.sessions k).writer ≡ t
      → IsKept (writer_step verbose k t r)
  unfolding writer_step
  writer_step-IsKept r h unborn at = h
  writer_step-IsKept r h (sending i) at = h
  writer_step-IsKept r h (dropping i) at =
      let place = (h.fine k).writes i (ap writer_id at) in
      writer_ends (del_client verbose i k r) testing _ (del_client-IsKept verbose r k i h place)
        refl
  writer_step-IsKept r h testing at = elim (Bool-cases (r.sessions k).closed) [
    | inl e ↦ rw e (writer_ends r ended _ h refl)
    | inr e ↦ rw e (writer_ends r shutting _ h refl)
  ]
  writer_step-IsKept r h shutting at =
      close_channel-IsKept (record (r.sessions k) { writer = ended }) r
        (writer_on r ended true h (λ i e. absurd (cc))) h
  writer_step-IsKept r h ended at = h

  pub fail_read-IsKept :
      (r : Room) → IsKept r → (s : Handler) → (r.sessions k).handler ≡ s → IsKept (fail_read k s r)
  unfolding fail_read
  fail_read-IsKept r h (reading i) at =
      IsKept-GoesOn r k _ (goes_on r (reading i) (checking i) _ h at refl refl (λ j f. absurd (cc)))
        h
  fail_read-IsKept r h joining at = h
  fail_read-IsKept r h (inserting i) at = h
  fail_read-IsKept r h (listening i) at = h
  fail_read-IsKept r h (checking i) at = h
  fail_read-IsKept r h (closing i) at = h
  fail_read-IsKept r h (leaving i) at = h
  fail_read-IsKept r h (left i) at = h

  pub fail_write-IsKept :
      (r : Room) → IsKept r → (t : Writer) → (r.sessions k).writer ≡ t → IsKept (fail_write k t r)
  unfolding fail_write
  fail_write-IsKept r h (sending i) at =
      IsKept-GoesOn r k _ (writer_on r (dropping i) _ h (λ j e. ap writer_id at ∙ e)) h
  fail_write-IsKept r h unborn at = h
  fail_write-IsKept r h (dropping i) at = h
  fail_write-IsKept r h testing at = h
  fail_write-IsKept r h shutting at = h
  fail_write-IsKept r h ended at = h

  pub fall_behind-IsKept :
      (r : Room) → IsKept r → (t : Writer) → (r.sessions k).writer ≡ t → IsKept (fall_behind k t r)
  unfolding fall_behind
  fall_behind-IsKept r h (sending i) at = writer_ends r testing _ h refl
  fall_behind-IsKept r h unborn at = h
  fall_behind-IsKept r h (dropping i) at = h
  fall_behind-IsKept r h testing at = h
  fall_behind-IsKept r h shutting at = h
  fall_behind-IsKept r h ended at = h
