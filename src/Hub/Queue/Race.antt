-- ===== src/Hub/Queue/Race.antt =====
-- Two calls of `Append` that meet in an empty queue (hub/messagequeue.go).
use websockethub.Base.{ℕ, ◌+◌, ◌≡◌, refl, ◌∙◌, ap, true, none, List, [], ◌∷◌, ◌++◌, arith, length}
use websockethub.Base.Int.{ℤ, pos, ◌+ℤ◌}
use websockethub.Hub.Queue.{
  Message, crashed, Move, calls_append, calls_listen, appends, listens, run, move, new_system, gt,
  append_step, step_appender, change_at, listen_step, append_step,
}

-- The first call exchanges the newest entry and is held up before it sets the pointer to its
-- successor; the second one runs up to the exchange of the oldest entry.
abbrev pub overtaking : Message → Message → List Move
overtaking a b =
    calls_append a
    ∷ calls_append b
    ∷ appends 0
    ∷ appends 0
    ∷ appends 1
    ∷ appends 1
    ∷ appends 1
    ∷ appends 1
    ∷ appends 1
    ∷ appends 1
    ∷ []

abbrev pub trimming : List Move
trimming = appends 1 ∷ appends 1 ∷ appends 1 ∷ appends 1 ∷ []

zero_+ℤ : (n : ℕ) → pos 0 +ℤ pos n ≡ pos n
unfolding ◌+ℤ◌
zero_+ℤ n = ground arith

-- If a message alone is larger than the backlog may be, a call that appends it can overtake another
-- one so that the oldest pointer becomes nil, and every listener that starts then ends in a panic.
pub run-crashed :
    (overhead : ℕ) (maxsize : ℤ) (a b : Message)
    → gt (pos (overhead + length b)) maxsize ≡ true
    → ((run overhead (new_system maxsize) (overtaking a b ++ trimming)).queue.oldest ≡ none)
      × ((run overhead
            (new_system maxsize)
            (overtaking a b ++ (trimming ++ calls_listen ∷ listens 0 ∷ []))).listeners
          ≡ record { place = crashed; delivered = [] } ∷ [])
unfolding move append_step step_appender change_at listen_step
run-crashed overhead maxsize a b e =
    let size : gt (pos 0 +ℤ pos (overhead + length b)) maxsize ≡ true =
      ap (λ z. gt z maxsize) (zero_+ℤ (overhead + length b)) ∙ e in
    (rw size refl, rw size refl)
