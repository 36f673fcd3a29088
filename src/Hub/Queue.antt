-- ===== src/Hub/Queue.antt =====
-- The backlog of a room, hub/messagequeue.go: calls of `Append`, with `trim`, and listeners, that
-- run at the same time, each step one atomic operation of the code.
pub mod Order
pub mod Race
pub mod Backlog
pub mod Replay
pub mod History
use websockethub.Base.{
  ℕ, zero, suc, ◌+◌, Bool, true, false, Option, none, some, List, [], ◌∷◌, ◌++◌, ◌==◌, ltb, length,
  if◌then◌else◌,
}
use mathlib.Core.List.{foldl}
use websockethub.Base.Int.{ℤ, pos, ◌+ℤ◌, ◌-ℤ◌, pos_part, neg_part}

-- Bytes.
abbrev pub Message : Type 0
Message = List ℕ

-- `queueEntry`, with what its pointer `next` points to; `valid` tells that the counter is 0.
pub record Entry : Type 0 where
  pub next : Option ℕ
  pub msg : Option Message
  pub valid : Bool

-- `newQueueEntry`
abbrev pub new_entry : Entry
new_entry = record { next = none; msg = none; valid = false }

-- `staleEntry` is the entry with the number 0; the others have numbers in the order in which they
-- become the newest one.
abbrev pub stale : ℕ
stale = 0

-- `placed` is no part of the program: the messages of the calls of `Append` in the order in which
-- their exchange of the newest entry succeeded.
pub record Queue : Type 0 where
  pub heap : ℕ → Entry
  pub oldest : Option ℕ
  pub newest : ℕ
  pub size : ℤ
  pub maxsize : ℤ
  pub placed : List Message

abbrev pub gt : ℤ → ℤ → Bool
gt a b = ltb (pos_part b + neg_part a) (pos_part a + neg_part b)

abbrev pub entry_size : ℕ → Entry → ℕ
entry_size overhead e = overhead + elim e.msg [ none ↦ 0 | some m ↦ length m ]

abbrev pub write : ℕ → Entry → (ℕ → Entry) → ℕ → Entry
write k e h i = if i == k then e else h i

-- Where a call of `Append` is, by its next operation.
pub data Appender : Type 0 where
  -- `q.newest.load()`, `q.newest.cas(oldnewest, newp)`
  loads : Message → Appender
  exchanges : Message → ℕ → Appender
  -- `e.next.store(newp)`, `e.msg = msg`, `q.size.add(e.Size())`, `e.valid.Done()`
  links : Message → ℕ → Appender
  stores : Message → ℕ → Appender
  adds : ℕ → Appender
  validates : ℕ → Appender
  -- in `trim`: `q.size.load()`, `q.oldest.load()`, `e.next.load()`, `q.oldest.cas(..)`,
  -- `q.size.sub(e.Size())`, `e.next.store(staleEntry)`
  checks : Appender
  looks : Appender
  reads_next : Option ℕ → Appender
  swaps : ℕ → Option ℕ → Appender
  subtracts : ℕ → Appender
  cuts : ℕ → Appender
  returned : Appender
  panicked : Appender

abbrev pub same_ptr : Option ℕ → Option ℕ → Bool
same_ptr none none = true
same_ptr (some a) (some b) = a == b
same_ptr _ _ = false

-- The next operation of a call. The size of an entry has a constant part, `overhead`.
unfoldable pub append_step : ℕ → Queue → Appender → Queue × Appender
append_step overhead q (loads m) = (q, exchanges m q.newest)
append_step overhead q (exchanges m old) =
    if old == q.newest
    then (
      record q {
        heap = write (suc old) new_entry q.heap;
        newest = suc old;
        placed = q.placed ++ m ∷ [];
      },
      links m old,
    )
    else (q, loads m)
append_step overhead q (links m e) =
    (record q { heap = write e (record (q.heap e) { next = some (suc e) }) q.heap }, stores m e)
append_step overhead q (stores m e) =
    (record q { heap = write e (record (q.heap e) { msg = some m }) q.heap }, adds e)
append_step overhead q (adds e) =
    (record q { size = q.size +ℤ pos (entry_size overhead (q.heap e)) }, validates e)
append_step overhead q (validates e) =
    (record q { heap = write e (record (q.heap e) { valid = true }) q.heap }, checks)
append_step overhead q checks = (q, if gt q.size q.maxsize then looks else returned)
append_step overhead q looks = (q, reads_next q.oldest)
append_step overhead q (reads_next none) = (q, panicked)
append_step overhead q (reads_next (some e)) = (q, swaps e (q.heap e).next)
append_step overhead q (swaps e next) =
    if same_ptr q.oldest (some e) then (record q { oldest = next }, subtracts e) else (q, returned)
append_step overhead q (subtracts e) =
    (record q { size = q.size -ℤ pos (entry_size overhead (q.heap e)) }, cuts e)
append_step overhead q (cuts e) =
    (record q { heap = write e (record (q.heap e) { next = some stale }) q.heap }, checks)
append_step overhead q returned = (q, returned)
append_step overhead q panicked = (q, panicked)

-- Where a listener is: before `e := p.load()`, before it sends, after it has sent, or at its end,
-- with its channel closed, stopped by `quit`, or in a panic.
pub data Place : Type 0 where
  follows : Option ℕ → Place
  sends : ℕ → Place
  has_sent : ℕ → Place
  closed stopped crashed : Place

pub record Listener : Type 0 where
  pub place : Place
  pub delivered : List Message

-- A listener that waits for an entry to become valid stays where it is.
abbrev pub inspect : ℕ → Entry → Place
inspect e entry =
    if entry.valid then (elim entry.msg [ none ↦ crashed | some _ ↦ sends e ]) else follows (some e)

abbrev pub deliver : Option Message → ℕ → Listener → Listener
deliver none e l = record l { place = crashed }
deliver (some m) e l = record { place = has_sent e; delivered = l.delivered ++ m ∷ [] }

abbrev pub listen_from : Place → Queue → Listener → Listener
listen_from (follows none) q l = record l { place = crashed }
listen_from (follows (some e)) q l = record l {
  place = if e == stale then closed else inspect e (q.heap e);
}
listen_from (sends e) q l = deliver (q.heap e).msg e l
listen_from (has_sent e) q l = record l { place = follows (q.heap e).next }
listen_from closed q l = l
listen_from stopped q l = l
listen_from crashed q l = l

unfoldable pub listen_step : Queue → Listener → Listener
listen_step q l = listen_from l.place q l

-- `quit` is closed while the listener waits for its message to be taken.
unfoldable pub quit_step : Listener → Listener
quit_step l = record l { place = elim l.place [ sends e ↦ stopped | p ↦ p ] }

pub record System : Type 0 where
  pub queue : Queue
  pub appenders : List Appender
  pub listeners : List Listener

-- `newQueue`
abbrev pub new_queue : ℤ → Queue
new_queue maxsize = record {
  heap = λ i. if i == stale then record { next = none; msg = none; valid = true } else new_entry;
  oldest = some 1;
  newest = 1;
  size = pos 0;
  maxsize = maxsize;
  placed = [];
}

abbrev pub new_system : ℤ → System
new_system maxsize = record { queue = new_queue maxsize; appenders = []; listeners = [] }

-- What happens next: a call of `Append` or `Listen`, or one step of a running one.
pub data Move : Type 0 where
  calls_append : Message → Move
  calls_listen : Move
  appends : ℕ → Move
  listens : ℕ → Move
  quits : ℕ → Move

-- A step of the call with the number `i`; nothing if there is none.
unfoldable pub step_appender : ℕ → Queue → List Appender → ℕ → Queue × List Appender
step_appender overhead q [] i = (q, [])
step_appender overhead q (a ∷ as') zero =
    ((append_step overhead q a).0, (append_step overhead q a).1 ∷ as')
step_appender overhead q (a ∷ as') (suc i) =
    ((step_appender overhead q as' i).0, a ∷ (step_appender overhead q as' i).1)

unfoldable pub change_at : (Listener → Listener) → ℕ → List Listener → List Listener
change_at f i [] = []
change_at f zero (l ∷ ls) = f l ∷ ls
change_at f (suc i) (l ∷ ls) = l ∷ change_at f i ls

unfoldable pub move : ℕ → System → Move → System
unfolding append_step step_appender change_at listen_step quit_step
move overhead s (calls_append m) = record s { appenders = s.appenders ++ loads m ∷ [] }
move overhead s calls_listen = record s {
  listeners = s.listeners ++ record { place = follows s.queue.oldest; delivered = [] } ∷ [];
}
move overhead s (appends i) = record s {
  queue = (step_appender overhead s.queue s.appenders i).0;
  appenders = (step_appender overhead s.queue s.appenders i).1;
}
move overhead s (listens i) = record s { listeners = change_at (listen_step s.queue) i s.listeners }
move overhead s (quits i) = record s { listeners = change_at quit_step i s.listeners }

abbrev pub run : ℕ → System → List Move → System
run overhead = foldl (move overhead)
