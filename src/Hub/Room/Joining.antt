-- ===== src/Hub/Room/Joining.antt =====
-- A new client of hub/chatroom.go takes an id.
use websockethub.Base.{
  ℕ, suc, ◌<◌, ◌≡◌, ◌≢◌, sym, ◌∙◌, ap, inl, inr, false, none, some, ◌==◌, ==_iff, arith, Bool-cases,
}
use websockethub.Hub.Counter.{range, inc}
use websockethub.Hub.Room.{
  Handler, joining, inserting, listening, reading, checking, closing, leaving, left, Session, Room,
  update, set_session,
}
use websockethub.Hub.Room.Invariant.{id_of, inserted, IsFine, IsKept, update-cases}

pub inserted-id : (h : Handler) (i : ℕ) → inserted h ≡ some i → id_of h ≡ some i
inserted-id joining i e = e
inserted-id (inserting j) i e = absurd (cc)
inserted-id (listening j) i e = e
inserted-id (reading j) i e = e
inserted-id (checking j) i e = e
inserted-id (closing j) i e = e
inserted-id (leaving j) i e = e
inserted-id (left j) i e = e

pub some_eq : (a b : ℕ) → some a ≡ some b → a ≡ b
some_eq a b e = cc

-- Whoever is in the map has not been changed, if one was changed that is not in it.
pub place_kept :
    (r : Room) (k : ℕ) (s : Session)
    → inserted (r.sessions k).handler ≡ none
    → (l i : ℕ) → inserted (r.sessions l).handler ≡ some i
    → inserted (update r.sessions k s l).handler ≡ some i
place_kept r k s n l i =
    update-cases (λ m t. inserted (r.sessions m).handler ≡ some i → inserted t.handler ≡ some i)
      r.sessions k s (λ e. absurd (cc (n, e))) (λ m d e. e) l

-- A new client takes an id that nobody has.
module _ (r : Room) (k : ℕ) (h : IsKept r) (at : (r.sessions k).handler ≡ joining)
    (room : suc r.numclients < range) where
  abbrev taken : Room
  taken =
      set_session k (record (r.sessions k) { handler = inserting (inc r.numclients) })
        (record r { numclients = inc r.numclients })

  inc_eq : inc r.numclients ≡ suc r.numclients
  unfolding inc
  inc_eq = omega arith

  nowhere : inserted (r.sessions k).handler ≡ none
  nowhere = ap inserted at

  new_id :
      (l i : ℕ) → (l == k) ≡ false → id_of (r.sessions l).handler ≡ some i → inc r.numclients ≢ i
  new_id l i n e f = omega (arith, (h.fine l).bound i e, inc_eq)

  pub joining-IsKept : IsKept taken
  joining-IsKept = record {
    fine =
        update-cases (λ l t. IsFine (inc r.numclients) r.clients l t) r.sessions k _
          (record {
            bound = λ i e. omega (arith, some_eq (inc r.numclients) i e);
            before = λ e. (h.fine k).before nowhere;
            inside = λ i e. absurd (cc);
            forgotten = λ i e. absurd (cc);
            writes = λ i e. absurd (cc (nowhere, (h.fine k).writes i e));
          })
          (λ l n. record {
            bound = λ i e. omega (arith, (h.fine l).bound i e, inc_eq);
            before = (h.fine l).before;
            inside = (h.fine l).inside;
            forgotten = (h.fine l).forgotten;
            writes = (h.fine l).writes;
          });
    unique = λ l m i. elim (Bool-cases (l == k)) [
      | inl e ↦ elim (Bool-cases (m == k)) [
        | inl f ↦ λ a b. (==_iff l k).0 e ∙ sym ((==_iff m k).0 f)
        | inr f ↦ rw (e, f) (λ a b. absurd (new_id m i f b (some_eq (inc r.numclients) i a)))
      ]
      | inr e ↦ elim (Bool-cases (m == k)) [
        | inl f ↦ rw (e, f) (λ a b. absurd (new_id l i e a (some_eq (inc r.numclients) i b)))
        | inr f ↦ rw (e, f) (h.unique l m i)
      ]
    ];
    owner = λ i l c. place_kept r k _ nowhere l i (h.owner i l c);
    purged = λ i l c. place_kept r k _ nowhere l i (h.purged i l c);
  }
