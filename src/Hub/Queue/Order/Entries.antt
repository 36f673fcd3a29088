-- ===== src/Hub/Queue/Order/Entries.antt =====
-- What the operations of `Append` (hub/messagequeue.go) keep of the entries.
use websockethub.Base.{
  ℕ, suc, ◌≡◌, refl, ◌∙◌, sym, ◌⊎◌, inl, inr, Option, none, some, List, [], ◌∷◌, ◌++◌, arith,
  length-append, ◌==◌, ==_iff, Bool-cases,
}
use mathlib.Core.Path.{subst}
use websockethub.Base.Int.{ℤ}
use websockethub.Hub.Queue.{
  Message, Entry, Queue, Appender, loads, exchanges, links, stores, adds, validates, checks, looks,
  reads_next, swaps, subtracts, cuts, returned, panicked, append_step, write, new_entry, gt,
  same_ptr,
}
use websockethub.Hub.Queue.Order.Stretch.{
  placed_at, IsNext, unset, cut, linked, IsMessage, not_yet, stored, IsOrdered, IsPlaced, more,
  get_elem?-append_length, placed_at-more,
}

-- The messages that were placed before stay, and there may be one more.
abbrev pub Grows : List Message → List Message → Type 0
Grows log log' = (log' ≡ log) ⊎ ((m : Message) × (log' ≡ log ++ m ∷ []))

pub IsMessage-more :
    (log more : List Message) (k : ℕ) (o : Option Message)
    → IsMessage log k o
    → IsMessage (log ++ more) k o
IsMessage-more log more k none h = not_yet
IsMessage-more log more k (some m) (stored n e) = stored m (placed_at-more log more k e)

pub IsNext-write :
    (h : ℕ → Entry) (e : ℕ) (entry : Entry) (k : ℕ)
    → IsNext e entry.next
    → IsNext k (h k).next
    → IsNext k (write e entry h k).next
IsNext-write h e entry k new old = elim (Bool-cases (k == e)) [
  | inl y ↦ rw y (subst (λ i. IsNext i entry.next) (sym ((==_iff k e).0 y)) new)
  | inr n ↦ rw n old
]

pub IsMessage-write :
    (log : List Message) (h : ℕ → Entry) (e : ℕ) (entry : Entry) (k : ℕ)
    → IsMessage log e entry.msg
    → IsMessage log k (h k).msg
    → IsMessage log k (write e entry h k).msg
IsMessage-write log h e entry k new old = elim (Bool-cases (k == e)) [
  | inl y ↦ rw y (subst (λ i. IsMessage log i entry.msg) (sym ((==_iff k e).0 y)) new)
  | inr n ↦ rw n old
]

-- A write into one entry.
pub IsOrdered-write :
    (q : Queue) (e : ℕ) (entry : Entry)
    → IsOrdered q
    → IsNext e entry.next
    → IsMessage q.placed e entry.msg
    → IsOrdered (record q { heap = write e entry q.heap })
IsOrdered-write q e entry o n m = record {
  newest = o.newest;
  nexts = λ k. IsNext-write q.heap e entry k n (o.nexts k);
  messages = λ k. IsMessage-write q.placed q.heap e entry k m (o.messages k);
}

pub IsPlaced-more :
    (log more : List Message) (a : Appender) → IsPlaced log a → IsPlaced (log ++ more) a
IsPlaced-more log more (links m e) h = placed_at-more log more e h
IsPlaced-more log more (stores m e) h = placed_at-more log more e h
IsPlaced-more log more (loads m) h = tt
IsPlaced-more log more (exchanges m old) h = tt
IsPlaced-more log more (adds e) h = tt
IsPlaced-more log more (validates e) h = tt
IsPlaced-more log more checks h = tt
IsPlaced-more log more looks h = tt
IsPlaced-more log more (reads_next p) h = tt
IsPlaced-more log more (swaps e n) h = tt
IsPlaced-more log more (subtracts e) h = tt
IsPlaced-more log more (cuts e) h = tt
IsPlaced-more log more returned h = tt
IsPlaced-more log more panicked h = tt

-- What one operation of a call keeps.
pub record Keeps (q : Queue) (r : Queue × Appender) : Type 0 where
  pub ordered : IsOrdered r.0
  pub placed : IsPlaced r.0.placed r.1
  pub grows : Grows q.placed r.0.placed

pub Keeps-same : (q : Queue) (a : Appender) → IsOrdered q → IsPlaced q.placed a → Keeps q (q, a)
Keeps-same q a o p = record { ordered = o; placed = p; grows = inl refl }

-- Other values in the fields `oldest` and `size`.
pub Keeps-fields :
    (q : Queue) (oldest : Option ℕ) (size : ℤ) (a : Appender)
    → IsOrdered q
    → IsPlaced q.placed a
    → Keeps q (record q { oldest = oldest; size = size }, a)
Keeps-fields q oldest size a o p = record {
  ordered = record { newest = o.newest; nexts = o.nexts; messages = o.messages };
  placed = p;
  grows = inl refl;
}

pub exchange-Keeps :
    (q : Queue) (m : Message) (old : ℕ)
    → IsOrdered q
    → old ≡ q.newest
    → Keeps q (
      record q {
        heap = write (suc old) new_entry q.heap;
        newest = suc old;
        placed = q.placed ++ m ∷ [];
      },
      links m old,
    )
exchange-Keeps q m old o e = record {
  ordered = record {
    newest = omega (arith, e, o.newest, length-append {0} q.placed (m ∷ []));
    nexts = λ k. IsNext-write q.heap (suc old) new_entry k unset (o.nexts k);
    messages = λ k.
        IsMessage-write (q.placed ++ m ∷ []) q.heap (suc old) new_entry k not_yet
          (IsMessage-more q.placed (m ∷ []) k (q.heap k).msg (o.messages k));
  };
  placed =
      subst (λ i. placed_at (q.placed ++ m ∷ []) i ≡ some m) (sym (e ∙ o.newest))
        (get_elem?-append_length q.placed m);
  grows = inr (m, refl);
}

pub append_step-Keeps :
    (overhead : ℕ) (q : Queue) (a : Appender)
    → IsOrdered q
    → IsPlaced q.placed a
    → Keeps q (append_step overhead q a)
unfolding append_step
append_step-Keeps overhead q (loads m) o p = Keeps-same q _ o tt
append_step-Keeps overhead q (exchanges m old) o p = elim (Bool-cases (old == q.newest)) [
  | inl y ↦ rw y (exchange-Keeps q m old o ((==_iff old q.newest).0 y))
  | inr n ↦ rw n (Keeps-same q _ o tt)
]
append_step-Keeps overhead q (links m e) o p = record {
  ordered = IsOrdered-write q e _ o linked (o.messages e);
  placed = p;
  grows = inl refl;
}
append_step-Keeps overhead q (stores m e) o p = record {
  ordered = IsOrdered-write q e _ o (o.nexts e) (stored m p);
  placed = tt;
  grows = inl refl;
}
append_step-Keeps overhead q (adds e) o p = Keeps-fields q _ _ _ o tt
append_step-Keeps overhead q (validates e) o p = record {
  ordered = IsOrdered-write q e _ o (o.nexts e) (o.messages e);
  placed = tt;
  grows = inl refl;
}
append_step-Keeps overhead q checks o p = elim (Bool-cases (gt q.size q.maxsize)) [
  | inl y ↦ rw y (Keeps-same q looks o tt)
  | inr n ↦ rw n (Keeps-same q returned o tt)
]
append_step-Keeps overhead q looks o p = Keeps-same q _ o tt
append_step-Keeps overhead q (reads_next none) o p = Keeps-same q _ o tt
append_step-Keeps overhead q (reads_next (some e)) o p = Keeps-same q _ o tt
append_step-Keeps overhead q (swaps e n) o p = elim (Bool-cases (same_ptr q.oldest (some e))) [
  | inl y ↦ rw y (Keeps-fields q _ _ _ o tt)
  | inr k ↦ rw k (Keeps-same q returned o tt)
]
append_step-Keeps overhead q (subtracts e) o p = Keeps-fields q _ _ _ o tt
append_step-Keeps overhead q (cuts e) o p = record {
  ordered = IsOrdered-write q e _ o cut (o.messages e);
  placed = tt;
  grows = inl refl;
}
append_step-Keeps overhead q returned o p = Keeps-same q _ o tt
append_step-Keeps overhead q panicked o p = Keeps-same q _ o tt
