-- ===== src/Hub/Room/Changes.antt =====
-- The steps of hub/chatroom.go that put a client into the map and take it out keep what holds of it.
use websockethub.Base.{
  ℕ, suc, ◌≡◌, refl, sym, ◌∙◌, ap, inl, inr, Bool, false, Option, none, some, ◌==◌, ==_iff,
  if◌then◌else◌, Bool-cases, Option-cases,
}
use websockethub.Hub.Counter.{dec}
use websockethub.Hub.Room.{
  inserting, listening, sending, Room, update, set_session, hang_up, del_client,
}
use websockethub.Hub.Room.Invariant.{id_of, inserted, IsFine, IsKept, update-cases}
use websockethub.Hub.Room.Joining.{inserted-id, some_eq, place_kept}

update_hit : (f : ℕ → Option ℕ) (i j : ℕ) (v : Option ℕ) → i ≡ j → update f i v j ≡ v
update_hit f i j v e = rw ((==_iff j i).1 (sym e)) refl

-- Ids tell connections apart.
other_id :
    (r : Room) (k i : ℕ)
    → IsKept r
    → id_of (r.sessions k).handler ≡ some i
    → (l j : ℕ) → (l == k) ≡ false
    → id_of (r.sessions l).handler ≡ some j
    → (j == i) ≡ false
other_id r k i h at l j n e = elim (Bool-cases (j == i)) [
  | inr f ↦ f
  | inl f ↦ absurd (cc (n, (==_iff l k).1 (h.unique l k i (e ∙ ap some ((==_iff j i).0 f)) at)))
]

-- It is put into the map.
module _ (r : Room) (k i : ℕ) (h : IsKept r) (at : (r.sessions k).handler ≡ inserting i) where
  abbrev put : Room
  put =
      set_session k (record (r.sessions k) { handler = listening i; writer = sending i })
        (record r { clients = update r.clients i (some k) })

  outside : inserted (r.sessions k).handler ≡ none
  outside = ap inserted at

  ids_kept : (l : ℕ) → id_of (put.sessions l).handler ≡ id_of (r.sessions l).handler
  ids_kept l =
      update-cases (λ m t. id_of t.handler ≡ id_of (r.sessions m).handler) r.sessions k _
        (sym (ap id_of at)) (λ m n. refl) l

  owned : (j l : ℕ) → put.clients j ≡ some l → inserted (put.sessions l).handler ≡ some j
  owned j l = elim (Bool-cases (j == i)) [
    | inl f ↦
        rw f (λ c. rw ((==_iff l k).1 (sym (some_eq k l c))) (ap some (sym ((==_iff j i).0 f))))
    | inr f ↦ rw f (λ c. place_kept r k _ outside l j (h.owner j l c))
  ]

  pub inserting-IsKept : IsKept put
  inserting-IsKept = record {
    fine =
        update-cases (λ l t. IsFine r.numclients put.clients l t) r.sessions k _
          (record {
            bound = λ j e. (h.fine k).bound j (ap id_of at ∙ e);
            before = λ e. absurd (cc);
            inside = λ j e.
                inl (update_hit r.clients i j (some k) (some_eq i j e), (h.fine k).before outside);
            forgotten = λ j e. absurd (cc);
            writes = λ j e. e;
          })
          (λ l n. record {
            bound = (h.fine l).bound;
            before = (h.fine l).before;
            inside = λ j e.
                rw (other_id r k i h (ap id_of at) l j n (inserted-id _ j e))
                  ((h.fine l).inside j e);
            forgotten = λ j e.
                rw (other_id r k i h (ap id_of at) l j n (ap id_of e)) ((h.fine l).forgotten j e);
            writes = (h.fine l).writes;
          });
    unique = λ l m j e f. h.unique l m j (sym (ids_kept l) ∙ e) (sym (ids_kept m) ∙ f);
    owner = owned;
    purged = λ j l c. place_kept r k _ outside l j (h.purged j l c);
  }

-- A client is hung up, and taken out of the map.
module _ (verbose : Bool) (r : Room) (c i : ℕ) (h : IsKept r)
    (at : inserted (r.sessions c).handler ≡ some i) where
  abbrev without : Room
  without = record r {
    sessions = update r.sessions c (hang_up (r.sessions c));
    clients = update r.clients i none;
    connectedclients = if verbose then dec r.connectedclients else r.connectedclients;
  }

  id_at : id_of (r.sessions c).handler ≡ some i
  id_at = inserted-id (r.sessions c).handler i at

  handlers_kept : (l : ℕ) → (without.sessions l).handler ≡ (r.sessions l).handler
  handlers_kept l =
      update-cases (λ m t. t.handler ≡ (r.sessions m).handler) r.sessions c _ refl (λ m n. refl) l

  still_in : (j l : ℕ) → without.clients j ≡ some l → r.clients j ≡ some l
  still_in j l = elim (Bool-cases (j == i)) [
    | inl f ↦ rw f (λ e. absurd (cc))
    | inr f ↦ rw f (λ e. e)
  ]

  once : r.clients i ≡ some c → (r.sessions c).hangups ≡ 0
  once e = elim ((h.fine c).inside i at) [ inl (k, z) ↦ z | inr (n, z) ↦ absurd (cc (e, n)) ]

  moved :
      (l j : ℕ)
      → inserted (r.sessions l).handler ≡ some j
      → inserted (without.sessions l).handler ≡ some j
  moved l j e = ap inserted (handlers_kept l) ∙ e

  without-IsKept : r.clients i ≡ some c → IsKept without
  without-IsKept holds = record {
    fine =
        update-cases (λ l t. IsFine r.numclients without.clients l t) r.sessions c _
          (record {
            bound = (h.fine c).bound;
            before = λ e. absurd (cc (at, e));
            inside = λ j e.
                let same : i ≡ j = some_eq i j (sym at ∙ e) in
                inr (update_hit r.clients i j none same, ap suc (once holds));
            forgotten = λ j e. stays_out j ((h.fine c).forgotten j e);
            writes = (h.fine c).writes;
          })
          (λ l n. record {
            bound = (h.fine l).bound;
            before = (h.fine l).before;
            inside = λ j e.
                rw (other_id r c i h id_at l j n (inserted-id _ j e)) ((h.fine l).inside j e);
            forgotten = λ j e. stays_out j ((h.fine l).forgotten j e);
            writes = (h.fine l).writes;
          });
    unique = λ l m j e f.
        h.unique l m j (sym (ap id_of (handlers_kept l)) ∙ e)
          (sym (ap id_of (handlers_kept m)) ∙ f);
    owner = λ j l e. moved l j (h.owner j l (still_in j l e));
    purged = λ j l e. moved l j (h.purged j l e);
  }
    where
      stays_out : (j : ℕ) → r.clients j ≡ none → update r.clients i none j ≡ none
      stays_out j e = elim (Bool-cases (j == i)) [ inl f ↦ rw f refl | inr f ↦ rw f e ]

  holder : (d : ℕ) → r.clients i ≡ some d → d ≡ c
  holder d e = h.unique d c i (inserted-id _ i (h.owner i d e)) id_at

  pub del_client-IsKept : IsKept (del_client verbose i c r)
  unfolding del_client
  del_client-IsKept = elim (Option-cases (r.clients i)) [
    | inl n ↦ rw (n, del_client) h
    | inr (d, e) ↦ rw (e, del_client) (without-IsKept (e ∙ ap some (holder d e)))
  ]

  pub del_client-forgets : (del_client verbose i c r).clients i ≡ none
  unfolding del_client
  del_client-forgets = elim (Option-cases (r.clients i)) [
    | inl n ↦ rw (n, del_client) n
    | inr (d, e) ↦ rw (e, del_client) (update_hit r.clients i i none refl)
  ]

  pub del_client-handler :
      (l : ℕ) → ((del_client verbose i c r).sessions l).handler ≡ (r.sessions l).handler
  unfolding del_client
  del_client-handler l = elim (Option-cases (r.clients i)) [
    | inl n ↦ rw (n, del_client) refl
    | inr (d, e) ↦ rw (e, del_client) (handlers_kept l)
  ]
