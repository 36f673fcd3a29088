-- ===== src/Hub/Room/Forgets.antt =====
-- What becomes of the clients of a room (hub/chatroom.go), in every order of its steps.
use websockethub.Base.{ℕ, ◌≤◌, ◌<◌, ◌≡◌, ap, inl, inr, Bool, none, some, List, arith, Option-cases}
use websockethub.Hub.Counter.{range}
use websockethub.Hub.Room.{left, Room, new_room, Move, run}
use websockethub.Hub.Room.Invariant.{id_of, inserted, IsKept}
use websockethub.Hub.Room.Joining.{inserted-id}
use websockethub.Hub.Room.Runs.{joined, new_room-IsKept, run-IsKept}

-- What the room knows of a connection, by where its handler is.
abbrev pub Ends : Room → ℕ → Type 0
Ends r k =
    ((i : ℕ)
      → (r.sessions k).handler ≡ left i
      → (r.clients i ≡ none) × ((r.sessions k).hangups ≡ 1))
    × ((i : ℕ)
        → r.clients i ≡ some k
        → (id_of (r.sessions k).handler ≡ some i) × ((r.sessions k).hangups ≡ 0))
    × ((r.sessions k).hangups ≤ 1)

Ends-IsKept : (r : Room) → IsKept r → (k : ℕ) → Ends r k
Ends-IsKept r h k = (left_once, holds_open, at_most)
  where
    left_once :
        (i : ℕ)
        → (r.sessions k).handler ≡ left i
        → (r.clients i ≡ none) × ((r.sessions k).hangups ≡ 1)
    left_once i e = elim ((h.fine k).inside i (ap inserted e)) [
      | inl (a, z) ↦ absurd (cc (a, (h.fine k).forgotten i e))
      | inr gone ↦ gone
    ]

    holds_open :
        (i : ℕ)
        → r.clients i ≡ some k
        → (id_of (r.sessions k).handler ≡ some i) × ((r.sessions k).hangups ≡ 0)
    holds_open i e = elim ((h.fine k).inside i (h.owner i k e)) [
      | inl (a, z) ↦ (inserted-id _ i (h.owner i k e), z)
      | inr (n, z) ↦ absurd (cc (e, n))
    ]

    at_most : (r.sessions k).hangups ≤ 1
    at_most = elim (Option-cases (inserted (r.sessions k).handler)) [
      | inl n ↦ omega (arith, (h.fine k).before n)
      | inr (i, e) ↦ elim ((h.fine k).inside i e) [
        | inl (a, z) ↦ omega arith
        | inr (a, z) ↦ omega arith
      ]
    ]

-- While fewer than 2^32 clients have joined, and in whatever order the steps of the connections, of
-- the goroutines that send to them and of the room's closing follow one another: no two connections
-- have the same id; the room closes a connection at most once; one that the map holds has the id
-- that it is held by, and was not closed; and when the handler of a connection has ended, the
-- connection was closed, and the map does not hold its id any more.
pub run-Ends :
    (verbose : Bool) (moves : List Move)
    → joined verbose new_room moves < range
    → (k : ℕ)
    → Ends (run verbose new_room moves) k
      × ((l i : ℕ)
          → id_of ((run verbose new_room moves).sessions k).handler ≡ some i
          → id_of ((run verbose new_room moves).sessions l).handler ≡ some i
          → k ≡ l)
run-Ends verbose moves few k =
    let kept = run-IsKept verbose moves new_room new_room-IsKept (omega arith) in
    (Ends-IsKept (run verbose new_room moves) kept k, kept.unique k)
