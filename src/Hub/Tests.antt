-- ===== src/Hub/Tests.antt =====
-- The backlog of a room (hub/messagequeue.go) on concrete messages.
use websockethub.Base.{◌+◌, ◌*◌, ◌≡◌, refl, none, List, [], ◌∷◌, ◌++◌, All, arith}
use websockethub.Base.Int.{pos}
use websockethub.Hub.Queue.{
  Message, Listener, crashed, Move, calls_append, calls_listen, appends, listens, quits, loads, run,
  new_system, new_queue,
}
use websockethub.Hub.Queue.Order.{run-IsStretch}
use websockethub.Hub.Queue.Order.Stretch.{IsStretch}
use websockethub.Hub.Queue.Race.{overtaking, trimming, run-crashed}
use websockethub.Hub.Queue.Backlog.{append-Ends, new-Holds}
use websockethub.Hub.Queue.Backlog.Held.{alone, total, trimmed}
use websockethub.Hub.Queue.Backlog.Trimming.{Ends}
use websockethub.Hub.Queue.History.{append_all, Replays, replay-append_all}

abbrev hi : Message
hi = 98 ∷ 111 ∷ 98 ∷ []

abbrev bye : Message
bye = 97 ∷ 98 ∷ []

-- Two calls in turns, and a listener that starts before them.
abbrev turns : List Move
turns =
    calls_listen
    ∷ calls_append hi
    ∷ calls_append bye
    ∷ appends 1
    ∷ appends 0
    ∷ appends 0
    ∷ appends 1
    ∷ appends 1
    ∷ appends 1
    ∷ appends 0
    ∷ appends 0
    ∷ appends 0
    ∷ appends 0
    ∷ listens 0
    ∷ listens 0
    ∷ listens 0
    ∷ quits 0
    ∷ []

run-IsStretch_example :
    All
      (λ (l : Listener). IsStretch l.delivered (run 48 (new_system (pos 100)) turns).queue.placed)
      (run 48 (new_system (pos 100)) turns).listeners
run-IsStretch_example = run-IsStretch 48 (pos 100) turns

run-crashed_example :
    ((run 48 (new_system (pos 50)) (overtaking hi hi ++ trimming)).queue.oldest ≡ none)
    × ((run 48
          (new_system (pos 50))
          (overtaking hi hi ++ (trimming ++ calls_listen ∷ listens 0 ∷ []))).listeners
        ≡ record { place = crashed; delivered = [] } ∷ [])
run-crashed_example = run-crashed 48 (pos 50) hi hi refl

append-Ends_example :
    Ends 48 100
      (alone 48 (6 * 0 + 13 + 5) (new_queue (pos 100), loads hi))
      (trimmed 48 100 (hi ∷ []))
append-Ends_example = append-Ends 48 100 5 (new_queue (pos 100)) [] hi (new-Holds 48 100)

-- Three messages of which the last two fit.
abbrev chat : List Message
chat = hi ∷ bye ∷ hi ∷ []

replay-append_all_example : Replays 48 101 (append_all 48 101 40 chat (new_queue (pos 101))) chat
replay-append_all_example = replay-append_all 48 101 40 chat (omega arith)

replay_test : trimmed 48 101 chat ≡ bye ∷ hi ∷ []
unfolding trimmed total
replay_test = refl
