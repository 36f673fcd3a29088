-- ===== src/Hub/Room/Runs.antt =====
-- Every step of a room (hub/chatroom.go) keeps what holds of it.
use websockethub.Base.{
  ℕ, suc, ◌+◌, ◌≤◌, ◌<◌, ◌≡◌, refl, ◌∙◌, inl, inr, Bool, true, false, Option, none, some, List, [],
  ◌∷◌, ◌==◌, arith, Bool-cases, Option-cases, if◌then◌else◌,
}
use websockethub.Hub.Counter.{range, inc}
use websockethub.Hub.Room.{
  Handler, joining, inserting, listening, reading, checking, closing, leaving, left, Writer, unborn,
  sending, dropping, testing, shutting, ended, Room, new_room, update, close_room, or_else,
  del_client, handler_step, writer_step, fail_read, fail_write, fall_behind, purge, Move, handles,
  writes, read_fails, write_fails, falls_behind, room_closes, purges, next, move, run,
}
use websockethub.Hub.Room.Invariant.{IsKept}
use websockethub.Hub.Room.Changes.{del_client-IsKept}
use websockethub.Hub.Room.Steps.{
  joins, handler_step-IsKept, writer_step-IsKept, fail_read-IsKept, fail_write-IsKept,
  fall_behind-IsKept,
}

-- Whether a step is that of a connection that takes an id.
abbrev is_join : Room → Move → ℕ
is_join r (handles k) = joins (r.sessions k).handler
is_join r _ = 0

-- How many have joined in a run.
unfoldable pub joined : Bool → Room → List Move → ℕ
joined verbose r [] = 0
joined verbose r (m ∷ ms) = is_join r m + joined verbose (move verbose r m) ms

inc_le : (n : ℕ) → inc n ≤ suc n
unfolding inc
inc_le n = omega arith

pub new_room-IsKept : IsKept new_room
new_room-IsKept = record {
  fine = λ k. record {
    bound = λ i e. absurd (cc);
    before = λ e. refl;
    inside = λ i e. absurd (cc);
    forgotten = λ i e. absurd (cc);
    writes = λ i e. absurd (cc);
  };
  unique = λ k l i e f. absurd (cc);
  owner = λ i k e. absurd (cc);
  purged = λ i k e. absurd (cc);
}

close_room-IsKept : (r : Room) → IsKept r → IsKept (close_room r)
close_room-IsKept r h = record {
  fine = h.fine;
  unique = h.unique;
  owner = h.owner;
  purged = λ i k e. elim (Option-cases (r.clients i)) [
    | inl n ↦ h.purged i k (rw (n, or_else) at e)
    | inr (c, f) ↦ h.owner i k (f ∙ rw (f, or_else) at e)
  ];
}

purge-IsKept :
    (verbose : Bool) (i : ℕ) (r : Room)
    → IsKept r
    → (o : Option ℕ) → r.purging i ≡ o
    → IsKept (purge verbose i o r)
purge-IsKept verbose i r h none e = h
purge-IsKept verbose i r h (some c) e =
    let kept = del_client-IsKept verbose r c i h (h.purged i c e) in
    record {
      fine = kept.fine;
      unique = kept.unique;
      owner = kept.owner;
      purged = λ j k f. kept.purged j k (was_there j k f);
    }
  where
    was_there :
        (j k : ℕ)
        → update (del_client verbose i c r).purging i none j ≡ some k
        → (del_client verbose i c r).purging j ≡ some k
    was_there j k = elim (Bool-cases (j == i)) [
      | inl y ↦ rw y (λ f. absurd (cc))
      | inr n ↦ rw n (λ f. f)
    ]

next-IsKept :
    (verbose : Bool) (r : Room) (m : Move)
    → IsKept r
    → r.numclients + is_join r m < range
    → IsKept (next verbose r m)
next-IsKept verbose r (handles k) h room = handler_step-IsKept verbose k r h _ refl room
next-IsKept verbose r (writes k) h room = writer_step-IsKept verbose k r h _ refl
next-IsKept verbose r (read_fails k) h room = fail_read-IsKept verbose k r h _ refl
next-IsKept verbose r (write_fails k) h room = fail_write-IsKept verbose k r h _ refl
next-IsKept verbose r (falls_behind k) h room = fall_behind-IsKept verbose k r h _ refl
next-IsKept verbose r room_closes h room = close_room-IsKept r h
next-IsKept verbose r (purges i) h room = purge-IsKept verbose i r h _ refl

del_client-numclients :
    (verbose : Bool) (i c : ℕ) (r : Room) → (del_client verbose i c r).numclients ≡ r.numclients
unfolding del_client
del_client-numclients verbose i c r = ground arith

handler_step-numclients :
    (verbose : Bool) (k : ℕ) (s : Handler) (r : Room)
    → (handler_step verbose k s r).numclients ≤ r.numclients + joins s
unfolding handler_step
handler_step-numclients verbose k joining r = omega (arith, inc_le r.numclients)
handler_step-numclients verbose k (inserting i) r = omega arith
handler_step-numclients verbose k (listening i) r = omega arith
handler_step-numclients verbose k (reading i) r = omega arith
handler_step-numclients verbose k (checking i) r = omega arith
handler_step-numclients verbose k (closing i) r = ground arith
handler_step-numclients verbose k (leaving i) r = omega (arith, del_client-numclients verbose i k r)
handler_step-numclients verbose k (left i) r = omega arith

writer_step-numclients :
    (verbose : Bool) (k : ℕ) (t : Writer) (r : Room)
    → (writer_step verbose k t r).numclients ≡ r.numclients
unfolding writer_step
writer_step-numclients verbose k unborn r = refl
writer_step-numclients verbose k (sending i) r = refl
writer_step-numclients verbose k (dropping i) r = del_client-numclients verbose i k r
writer_step-numclients verbose k testing r = refl
writer_step-numclients verbose k shutting r = ground arith
writer_step-numclients verbose k ended r = refl

numclients-next :
    (verbose : Bool) (r : Room) (m : Move)
    → (next verbose r m).numclients ≤ r.numclients + is_join r m
unfolding fail_read fail_write fall_behind
numclients-next verbose r (handles k) = handler_step-numclients verbose k (r.sessions k).handler r
numclients-next verbose r (writes k) =
    omega (arith, writer_step-numclients verbose k (r.sessions k).writer r)
numclients-next verbose r (read_fails k) = ground arith
numclients-next verbose r (write_fails k) = ground arith
numclients-next verbose r (falls_behind k) = ground arith
numclients-next verbose r room_closes = omega arith
numclients-next verbose r (purges i) = elim (Option-cases (r.purging i)) [
  | inl n ↦ rw (n, purge) (omega arith)
  | inr (c, e) ↦ rw (e, purge) (omega (arith, del_client-numclients verbose i c r))
]

if-cases : (P : Room → Type 0) (b : Bool) (r v : Room) → P r → P v → P (if b then r else v)
if-cases P true r v h k = h
if-cases P false r v h k = k

move-IsKept :
    (verbose : Bool) (r : Room) (m : Move)
    → IsKept r
    → r.numclients + is_join r m < range
    → IsKept (move verbose r m)
unfolding move
move-IsKept verbose r m h room =
    if-cases IsKept r.panicked r (next verbose r m) h (next-IsKept verbose r m h room)

numclients-move :
    (verbose : Bool) (r : Room) (m : Move)
    → (move verbose r m).numclients ≤ r.numclients + is_join r m
unfolding move
numclients-move verbose r m =
    if-cases (λ v. v.numclients ≤ r.numclients + is_join r m) r.panicked r (next verbose r m)
      (omega arith) (numclients-next verbose r m)

pub run-IsKept :
    (verbose : Bool) (ms : List Move) (r : Room)
    → IsKept r
    → r.numclients + joined verbose r ms < range
    → IsKept (run verbose r ms)
unfolding joined
run-IsKept verbose [] r h room = h
run-IsKept verbose (m ∷ ms) r h room =
    run-IsKept verbose ms (move verbose r m) (move-IsKept verbose r m h (omega arith))
      (omega (arith, numclients-move verbose r m))
