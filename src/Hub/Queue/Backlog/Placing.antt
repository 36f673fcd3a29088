-- ===== src/Hub/Queue/Backlog/Placing.antt =====
-- The first half of a call of `Append` (hub/messagequeue.go): a message is put in its place.
use websockethub.Base.{
  ℕ, suc, ◌+◌, ◌≡◌, ◌∙◌, ap, sym, inr, Bool, true, some, List, [], ◌∷◌, ◌++◌, arith, length,
  length-append, if◌then◌else◌,
}
use mathlib.Core.Path.{subst}
use websockethub.Base.Int.{pos, ◌+ℤ◌, ◌-ℤ◌}
use websockethub.Hub.Queue.{
  Message, Entry, Queue, loads, exchanges, links, checks, append_step, entry_size, write, new_entry,
}
use websockethub.Hub.Queue.Backlog.Held.{
  total, alone, IsFull, Chain, Holds, ==_refl, write_self, Chain-write, Chain-append,
}

-- The queue when a call has put its message in its place.
module _ (overhead : ℕ) (q : Queue) (m : Message) where
  pub prepared : ℕ → Entry
  prepared = write (suc q.newest) new_entry q.heap

  pub linked : ℕ → Entry
  unfolding prepared
  linked = write q.newest (record (prepared q.newest) { next = some (suc q.newest) }) prepared

  pub filled : ℕ → Entry
  unfolding linked
  filled = write q.newest (record (linked q.newest) { msg = some m }) linked

  unfoldable pub placed_queue : Queue
  unfolding filled
  placed_queue = record q {
    heap = write q.newest (record (filled q.newest) { valid = true }) filled;
    newest = suc q.newest;
    size = q.size +ℤ pos (entry_size overhead (filled q.newest));
    placed = q.placed ++ m ∷ [];
  }

  pub exchange_lem : append_step overhead q (exchanges m q.newest) ≡ (
    record q { heap = prepared; newest = suc q.newest; placed = q.placed ++ m ∷ [] },
    links m q.newest,
  )
  unfolding append_step prepared
  exchange_lem =
      ap
        (λ (b : Bool).
          if b
          then (
            record q {
              heap = write (suc q.newest) new_entry q.heap;
              newest = suc q.newest;
              placed = q.placed ++ m ∷ [];
            },
            links m q.newest,
          )
          else (q, loads m))
        (==_refl q.newest)

  pub alone-placed :
      (n : ℕ)
      → alone overhead (suc (suc (suc (suc (suc (suc n)))))) (q, loads m)
        ≡ alone overhead n (placed_queue, checks)
  unfolding append_step placed_queue
  alone-placed n = ap (alone overhead (suc (suc (suc (suc n))))) exchange_lem

  pub linked-newest : linked q.newest ≡ record (prepared q.newest) { next = some (suc q.newest) }
  unfolding linked
  linked-newest = write_self q.newest _ prepared

  pub filled-newest : filled q.newest ≡ record (linked q.newest) { msg = some m }
  unfolding filled
  filled-newest = write_self q.newest _ linked

  pub placed-IsFull : IsFull placed_queue.heap q.newest m
  unfolding placed_queue
  placed-IsFull =
      write_self q.newest _ filled
      ∙ ap (λ (e : Entry). record e { valid = true })
          (filled-newest ∙ ap (λ (e : Entry). record e { msg = some m }) linked-newest)

  pub placed_size : placed_queue.size ≡ q.size +ℤ pos (overhead + length m)
  unfolding placed_queue
  placed_size = ap (λ (e : Entry). q.size +ℤ pos (entry_size overhead e)) filled-newest

  pub placed-Chain :
      (i : ℕ) (ms : List Message)
      → q.newest ≡ i + length ms
      → Chain q.heap i ms
      → Chain placed_queue.heap i ms
  unfolding placed_queue
  placed-Chain i ms e c = Chain-write q.newest _ filled i ms (inr (omega (arith, e))) (
      Chain-write q.newest _ linked i ms (inr (omega (arith, e))) (
        Chain-write q.newest _ prepared i ms (inr (omega (arith, e)))
          (Chain-write (suc q.newest) new_entry q.heap i ms (inr (omega (arith, e))) c)))

pub total-append :
    (overhead : ℕ) (ms : List Message) (m : Message)
    → total overhead (ms ++ m ∷ []) ≡ total overhead ms + (overhead + length m)
unfolding total
total-append overhead [] m = omega arith
total-append overhead (n ∷ ms) m = omega (arith, total-append overhead ms m)

pub pos-+ℤ : (a b : ℕ) → pos a +ℤ pos b ≡ pos (a + b)
unfolding ◌+ℤ◌
pos-+ℤ a b = ground arith

pub pos--ℤ : (a b : ℕ) → pos (a + b) -ℤ pos a ≡ pos b
unfolding ◌-ℤ◌
pos--ℤ a b = ground arith

pub placed-Holds :
    (overhead limit : ℕ) (q : Queue) (ms : List Message) (m : Message)
    → Holds overhead limit q ms
    → Holds overhead limit (placed_queue overhead q m) (ms ++ m ∷ [])
unfolding placed_queue
placed-Holds overhead limit q ms m h = record {
  first = h.first;
  positive = h.positive;
  oldest = h.oldest;
  newest = omega (arith, h.newest, length-append {0} ms (m ∷ []));
  chain =
      Chain-append (placed_queue overhead q m).heap h.first ms m
        (placed-Chain overhead q m h.first ms h.newest h.chain)
        (subst (λ k. IsFull (placed_queue overhead q m).heap k m) h.newest
          (placed-IsFull overhead q m));
  size =
      placed_size overhead q m
      ∙ (ap (λ z. z +ℤ pos (overhead + length m)) h.size
          ∙ (pos-+ℤ (total overhead ms) (overhead + length m)
              ∙ ap pos (sym (total-append overhead ms m))));
  maxsize = h.maxsize;
}
