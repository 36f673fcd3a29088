-- ===== src/Hub/Room/Tests.antt =====
-- Runs of a room of hub/chatroom.go on concrete sequences of steps.
use websockethub.Base.{ℕ, ◌≡◌, refl, ◌<◌, true, false, some, List, [], ◌∷◌, ◌++◌, arith}
use websockethub.Hub.Counter.{range, add, sub, sub-add}
use websockethub.Hub.Room.{
  Room, reading, sending, left, ended, new_room, Move, handles, read_fails, move, run,
}
use websockethub.Hub.Room.Invariant.{id_of}
use websockethub.Hub.Room.Forgets.{Ends, run-Ends}
use websockethub.Hub.Room.Runs.{joined}
use websockethub.Hub.Room.Located.{IsAt}
use websockethub.Hub.Room.Closing.{failing, overlapping, in_turn, run-panicked}

-- A client has joined, and its handler waits for a message.
abbrev joins_room : List Move
joins_room = handles 0 ∷ handles 0 ∷ handles 0 ∷ []

abbrev with_client : Room
with_client = run true new_room joins_room

with_client-IsAt : IsAt with_client 0 (reading 1) (sending 1) false
unfolding move
with_client-IsAt = record { alive = refl; handler = refl; writer = refl; closed = refl }

counter_test : with_client.connectedclients ≡ 1
unfolding move
counter_test = refl

-- A client that joins and leaves, beside another one that joins.
abbrev visit : List Move
visit =
    joins_room ++ (handles 1 ∷ read_fails 0 ∷ handles 1 ∷ handles 0 ∷ handles 0 ∷ handles 0 ∷ [])

few : joined true new_room visit < range
unfolding joined move
few = omega arith

run-Ends_example :
    Ends (run true new_room visit) 0
    × ((l i : ℕ)
        → id_of ((run true new_room visit).sessions 0).handler ≡ some i
        → id_of ((run true new_room visit).sessions l).handler ≡ some i
        → ◌≡◌ {A = ℕ} 0 l)
run-Ends_example = run-Ends true visit few 0

run-panicked_example :
    ((run true with_client (failing 0 ++ overlapping 0 true false)).panicked ≡ true)
    × IsAt (run true with_client (failing 0 ++ in_turn 0 true)) 0 (left 1) ended true
run-panicked_example = run-panicked true with_client 0 1 with_client-IsAt true false

sub-add_example : sub (add 4294967295 2) 2 ≡ 4294967295
sub-add_example = sub-add 4294967295 2 (omega arith) (omega arith)
