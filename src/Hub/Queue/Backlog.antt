-- ===== src/Hub/Queue/Backlog.antt =====
-- Calls of `Append` that come one after the other (hub/messagequeue.go), against a list of messages
-- that is trimmed from the front.
pub mod Held
pub mod Placing
pub mod Trimming
use websockethub.Base.{
  ℕ, suc, ◌+◌, ◌*◌, ◌≡◌, refl, sym, List, [], ◌∷◌, ◌++◌, arith, length, length-append,
}
use mathlib.Core.Path.{subst}
use websockethub.Base.Int.{pos}
use websockethub.Hub.Queue.{Message, Queue, Appender, loads, new_queue}
use Held.{total, trimmed, alone, Holds}
use Placing.{placed_queue, alone-placed, placed-Holds}
use Trimming.{rounds, rounds-lem, Ends, checks-Ends}

-- A call of `Append` on a queue that holds some messages, with no other call at work, returns after
-- at most thirteen operations and six more for each message that was held. Then the queue holds
-- those messages with the new one behind them, without the oldest ones, as few of them as bring the
-- rest below the limit; the size that it keeps is that of what it holds, and within the limit.
pub append-Ends :
    (overhead limit extra : ℕ) (q : Queue) (ms : List Message) (m : Message)
    → Holds overhead limit q ms
    → Ends overhead limit
        (alone overhead (6 * length ms + 13 + extra) (q, loads m))
        (trimmed overhead limit (ms ++ m ∷ []))
append-Ends overhead limit extra q ms m h =
    let fuel : suc (suc (suc (suc (suc (suc (rounds (ms ++ m ∷ []) extra))))))
        ≡ 6 * length ms + 13 + extra =
      omega (arith, rounds-lem (ms ++ m ∷ []) extra, length-append {0} ms (m ∷ [])) in
    let r = placed_queue overhead q m in
    subst
      (λ (n : ℕ).
        Ends overhead limit (alone overhead n (q, loads m)) (trimmed overhead limit (ms ++ m ∷ [])))
      fuel
      (subst
        (λ (r : Queue × Appender). Ends overhead limit r (trimmed overhead limit (ms ++ m ∷ [])))
        (sym (alone-placed overhead q m (rounds (ms ++ m ∷ []) extra)))
        (checks-Ends overhead limit extra r (ms ++ m ∷ []) (placed-Holds overhead limit q ms m h)))

-- A new queue holds nothing.
pub new-Holds : (overhead limit : ℕ) → Holds overhead limit (new_queue (pos limit)) []
unfolding total
new-Holds overhead limit = record {
  first = 1;
  positive = omega arith;
  oldest = refl;
  newest = refl;
  chain = tt;
  size = refl;
  maxsize = refl;
}
