-- ===== src/Hub/Queue/Order.antt =====
-- What the listeners of a queue (hub/messagequeue.go) deliver, in every interleaving.
pub mod Stretch
pub mod Entries
pub mod Listening
use websockethub.Base.{
  ℕ, zero, suc, refl, inl, inr, Option, none, some, List, [], ◌∷◌, ◌==◌, Bool-cases, All,
  All-append,
}
use websockethub.Base.Int.{ℤ}
use websockethub.Hub.Queue.{
  Message, Queue, Appender, loads, append_step, Listener, Place, follows, sends, has_sent, closed,
  stopped, crashed, listen_step, quit_step, System, Move, calls_append, calls_listen, appends,
  listens, quits, move, run, step_appender, change_at, new_system, new_queue, stale,
}
use Stretch.{unset, not_yet, IsOrdered, IsPlaced, IsStretch, IsAtPlace, IsAtPlace-IsStretch}
use Entries.{Grows, append_step-Keeps}
use Listening.{IsHeard, IsPlaced-Grows, IsHeard-Grows, All-map, listen_from-IsHeard}

record KeepsAll (q : Queue) (r : Queue × List Appender) : Type 0 where
  ordered : IsOrdered r.0
  placed : All (IsPlaced r.0.placed) r.1
  grows : Grows q.placed r.0.placed

step_appender-KeepsAll :
    (overhead : ℕ) (q : Queue) (as' : List Appender) (i : ℕ)
    → IsOrdered q
    → All (IsPlaced q.placed) as'
    → KeepsAll q (step_appender overhead q as' i)
unfolding step_appender
step_appender-KeepsAll overhead q [] i o h = record { ordered = o; placed = tt; grows = inl refl }
step_appender-KeepsAll overhead q (a ∷ as') zero o (h, hs) =
    let k = append_step-Keeps overhead q a o h in
    record {
      ordered = k.ordered;
      placed = (
        k.placed,
        All-map (λ b p. IsPlaced-Grows q.placed (append_step overhead q a).0.placed b k.grows p) as'
            hs,
      );
      grows = k.grows;
    }
step_appender-KeepsAll overhead q (a ∷ as') (suc i) o (h, hs) =
    let k = step_appender-KeepsAll overhead q as' i o hs in
    record {
      ordered = k.ordered;
      placed =
          (IsPlaced-Grows q.placed (step_appender overhead q as' i).0.placed a k.grows h, k.placed);
      grows = k.grows;
    }

record IsSound (s : System) : Type 0 where
  ordered : IsOrdered s.queue
  placed : All (IsPlaced s.queue.placed) s.appenders
  heard : All (IsHeard s.queue.placed) s.listeners

listen_step-IsHeard :
    (q : Queue) (l : Listener)
    → IsOrdered q
    → IsHeard q.placed l
    → IsHeard q.placed (listen_step q l)
unfolding listen_step
listen_step-IsHeard q l o h = listen_from-IsHeard q l.place l.delivered o h

quit_step-IsHeard : (log : List Message) (l : Listener) → IsHeard log l → IsHeard log (quit_step l)
unfolding quit_step
quit_step-IsHeard log l h = by_place l.place h
  where
    by_place :
        (p : Place)
        → IsAtPlace l.delivered log p
        → IsAtPlace l.delivered log (elim p [ sends e ↦ stopped | p ↦ p ])
    by_place (sends e) k = IsAtPlace-IsStretch l.delivered log (sends e) k
    by_place (follows o) k = k
    by_place (has_sent e) k = k
    by_place closed k = k
    by_place stopped k = k
    by_place crashed k = k

All-change_at :
    (P : Listener → Type 0) (f : Listener → Listener) (i : ℕ) (ls : List Listener)
    → ((l : Listener) → P l → P (f l))
    → All P ls
    → All P (change_at f i ls)
unfolding change_at
All-change_at P f i [] keep h = tt
All-change_at P f zero (l ∷ ls) keep (h, hs) = (keep l h, hs)
All-change_at P f (suc i) (l ∷ ls) keep (h, hs) = (h, All-change_at P f i ls keep hs)

-- Whatever the oldest pointer is, nothing has been delivered yet.
listen-IsAtPlace : (log : List Message) (p : Option ℕ) → IsAtPlace [] log (follows p)
listen-IsAtPlace log none = ([], log, refl)
listen-IsAtPlace log (some zero) = ([], log, refl)
listen-IsAtPlace log (some (suc k)) = inl refl

move-IsSound : (overhead : ℕ) (s : System) (m : Move) → IsSound s → IsSound (move overhead s m)
unfolding move
move-IsSound overhead s (calls_append m) k = record {
  ordered = k.ordered;
  placed = All-append (IsPlaced s.queue.placed) s.appenders (loads m ∷ []) k.placed (tt, tt);
  heard = k.heard;
}
move-IsSound overhead s calls_listen k = record {
  ordered = k.ordered;
  placed = k.placed;
  heard =
      All-append (IsHeard s.queue.placed) s.listeners _ k.heard
        (listen-IsAtPlace s.queue.placed s.queue.oldest, tt);
}
move-IsSound overhead s (appends i) k =
    let r = step_appender-KeepsAll overhead s.queue s.appenders i k.ordered k.placed in
    record {
      ordered = r.ordered;
      placed = r.placed;
      heard =
          All-map
            (λ l h.
              IsHeard-Grows s.queue.placed (step_appender overhead s.queue s.appenders i).0.placed l
                r.grows h)
            s.listeners k.heard;
    }
move-IsSound overhead s (listens i) k = record {
  ordered = k.ordered;
  placed = k.placed;
  heard =
      All-change_at (IsHeard s.queue.placed) (listen_step s.queue) i s.listeners
        (λ l h. listen_step-IsHeard s.queue l k.ordered h) k.heard;
}
move-IsSound overhead s (quits i) k = record {
  ordered = k.ordered;
  placed = k.placed;
  heard =
      All-change_at (IsHeard s.queue.placed) quit_step i s.listeners
        (quit_step-IsHeard s.queue.placed) k.heard;
}

run-IsSound : (overhead : ℕ) (ms : List Move) (s : System) → IsSound s → IsSound (run overhead s ms)
run-IsSound overhead [] s k = k
run-IsSound overhead (m ∷ ms) s k =
    run-IsSound overhead ms (move overhead s m) (move-IsSound overhead s m k)

new-IsOrdered : (maxsize : ℤ) → IsOrdered (new_queue maxsize)
new-IsOrdered maxsize = record {
  newest = refl;
  nexts = λ k. elim (Bool-cases (k == stale)) [ inl y ↦ rw y unset | inr n ↦ rw n unset ];
  messages = λ k. elim (Bool-cases (k == stale)) [ inl y ↦ rw y not_yet | inr n ↦ rw n not_yet ];
}

-- However the steps of any number of calls of `Append` and of listeners follow one another, what a
-- listener has delivered is a contiguous part of the messages, in the order in which the calls of
-- `Append` exchanged the newest entry: none twice, none left out, none out of turn.
pub run-IsStretch :
    (overhead : ℕ) (maxsize : ℤ) (moves : List Move)
    → All
        (λ (l : Listener).
          IsStretch l.delivered (run overhead (new_system maxsize) moves).queue.placed)
        (run overhead (new_system maxsize) moves).listeners
run-IsStretch overhead maxsize moves =
    let k =
      run-IsSound overhead moves (new_system maxsize)
        (record { ordered = new-IsOrdered maxsize; placed = tt; heard = tt }) in
    All-map
      (λ l h.
        IsAtPlace-IsStretch l.delivered (run overhead (new_system maxsize) moves).queue.placed
          l.place h)
      (run overhead (new_system maxsize) moves).listeners k.heard
