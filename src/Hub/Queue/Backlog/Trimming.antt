-- ===== src/Hub/Queue/Backlog/Trimming.antt =====
-- The second half of a call of `Append` (hub/messagequeue.go): `trim`.
use websockethub.Base.{
  ℕ, zero, suc, ◌+◌, ◌*◌, ◌≤◌, ◌≡◌, refl, ◌∙◌, ap, sym, inl, inr, Bool, true, false, Option, some,
  List, [], ◌∷◌, arith, length, Bool-cases, if◌then◌else◌,
}
use mathlib.Core.Path.{subst}
use websockethub.Base.Int.{pos, ◌-ℤ◌}
use websockethub.Hub.Queue.{
  Message, Entry, Queue, Appender, checks, looks, reads_next, subtracts, returned, append_step,
  entry_size, write, stale, same_ptr, gt,
}
use websockethub.Hub.Queue.Backlog.Held.{total, trimmed, alone, Holds, ==_refl, Chain-write}
use websockethub.Hub.Queue.Backlog.Placing.{pos--ℤ}

-- The queue when a call has taken the oldest entry away.
abbrev pub popped : ℕ → Queue → ℕ → Queue
popped overhead q o = record q {
  heap = write o (record (q.heap o) { next = some stale }) q.heap;
  oldest = (q.heap o).next;
  size = q.size -ℤ pos (entry_size overhead (q.heap o));
}

pub alone-popped :
    (overhead : ℕ) (q : Queue) (o n : ℕ)
    → gt q.size q.maxsize ≡ true
    → q.oldest ≡ some o
    → alone overhead (suc (suc (suc (suc (suc (suc n)))))) (q, checks)
      ≡ alone overhead n (popped overhead q o, checks)
unfolding append_step
alone-popped overhead q o n above at =
    ap
      (λ (b : Bool).
        alone overhead (suc (suc (suc (suc (suc n))))) (q, if b then looks else returned))
      above
    ∙ (ap (λ (p : Option ℕ). alone overhead (suc (suc (suc (suc n)))) (q, reads_next p)) at
        ∙ ap
            (λ (b : Bool).
              alone overhead (suc (suc n))
                (if b then (record q { oldest = (q.heap o).next }, subtracts o) else (q, returned)))
            (ap (λ (p : Option ℕ). same_ptr p (some o)) at ∙ ==_refl o))

pub popped-Holds :
    (overhead limit : ℕ) (q : Queue) (m : Message) (ms : List Message)
    (h : Holds overhead limit q (m ∷ ms))
    → Holds overhead limit (popped overhead q h.first) ms
unfolding total
popped-Holds overhead limit q m ms h = record {
  first = suc h.first;
  positive = omega arith;
  oldest = ap Entry.next h.chain.0;
  newest = omega (arith, h.newest);
  chain = Chain-write h.first _ q.heap (suc h.first) ms (inl (omega arith)) h.chain.1;
  size =
      ap (λ (e : Entry). q.size -ℤ pos (entry_size overhead e)) h.chain.0
      ∙ (ap (λ z. z -ℤ pos (overhead + length m)) h.size
          ∙ pos--ℤ (overhead + length m) (total overhead ms));
  maxsize = h.maxsize;
}

-- Enough operations to take away all messages and to return, and some more.
abbrev pub rounds : List Message → ℕ → ℕ
rounds [] extra = suc extra
rounds (m ∷ ms) extra = suc (suc (suc (suc (suc (suc (rounds ms extra))))))

pub rounds-lem : (ms : List Message) (extra : ℕ) → rounds ms extra ≡ 6 * length ms + 1 + extra
rounds-lem [] extra = omega arith
rounds-lem (m ∷ ms) extra = omega (arith, rounds-lem ms extra)

pub alone-returned : (overhead n : ℕ) (q : Queue) → alone overhead n (q, returned) ≡ (q, returned)
unfolding append_step
alone-returned overhead zero q = refl
alone-returned overhead (suc n) q = alone-returned overhead n q

-- The call has returned, and the queue holds these messages, which take no more than the limit.
abbrev pub Ends : ℕ → ℕ → Queue × Appender → List Message → Type 0
Ends overhead limit r ms =
    (r.1 ≡ returned) × Holds overhead limit r.0 ms × (total overhead ms ≤ limit)

pub gt-Holds :
    (overhead limit : ℕ) (q : Queue) (ms : List Message)
    → Holds overhead limit q ms
    → gt q.size q.maxsize ≡ gt (pos (total overhead ms)) (pos limit)
gt-Holds overhead limit q ms h =
    ap (λ z. gt z q.maxsize) h.size ∙ ap (gt (pos (total overhead ms))) h.maxsize

pub alone-stops :
    (overhead n : ℕ) (q : Queue)
    → gt q.size q.maxsize ≡ false
    → alone overhead (suc n) (q, checks) ≡ (q, returned)
unfolding append_step
alone-stops overhead n q below =
    ap (λ (b : Bool). alone overhead n (q, if b then looks else returned)) below
    ∙ alone-returned overhead n q

pub gt-le : (a b : ℕ) → gt (pos a) (pos b) ≡ false → a ≤ b
gt-le a b e = ground arith

-- Within the limit the call returns.
pub stops-Ends :
    (overhead limit n : ℕ) (q : Queue) (ms : List Message)
    → Holds overhead limit q ms
    → gt (pos (total overhead ms)) (pos limit) ≡ false
    → Ends overhead limit (alone overhead (suc n) (q, checks)) ms
stops-Ends overhead limit n q ms h below =
    subst (λ (r : Queue × Appender). Ends overhead limit r ms)
      (sym (alone-stops overhead n q (gt-Holds overhead limit q ms h ∙ below)))
      (refl, h, gt-le (total overhead ms) limit below)

pub trimmed-above :
    (overhead limit : ℕ) (m : Message) (ms : List Message)
    → gt (pos (total overhead (m ∷ ms))) (pos limit) ≡ true
    → trimmed overhead limit (m ∷ ms) ≡ trimmed overhead limit ms
unfolding trimmed
trimmed-above overhead limit m ms above =
    ap (λ (b : Bool). if b then trimmed overhead limit ms else m ∷ ms) above

pub trimmed-below :
    (overhead limit : ℕ) (m : Message) (ms : List Message)
    → gt (pos (total overhead (m ∷ ms))) (pos limit) ≡ false
    → trimmed overhead limit (m ∷ ms) ≡ m ∷ ms
unfolding trimmed
trimmed-below overhead limit m ms below =
    ap (λ (b : Bool). if b then trimmed overhead limit ms else m ∷ ms) below

pub nothing_below : (overhead limit : ℕ) → gt (pos (total overhead [])) (pos limit) ≡ false
unfolding total
nothing_below overhead limit = ground arith

pub checks-Ends :
    (overhead limit extra : ℕ) (q : Queue) (ms : List Message)
    → Holds overhead limit q ms
    → Ends overhead limit (alone overhead (rounds ms extra) (q, checks)) (trimmed overhead limit ms)
checks-Ends overhead limit extra q [] h =
    unfold trimmed in stops-Ends overhead limit extra q [] h (nothing_below overhead limit)
checks-Ends overhead limit extra q (m ∷ ms) h =
    elim (Bool-cases (gt (pos (total overhead (m ∷ ms))) (pos limit))) [
      | inl above ↦
          let at_end =
            checks-Ends overhead limit extra (popped overhead q h.first) ms
              (popped-Holds overhead limit q m ms h) in
          subst (λ (r : Queue × Appender). Ends overhead limit r (trimmed overhead limit (m ∷ ms)))
            (sym (
              alone-popped overhead q h.first (rounds ms extra)
                (gt-Holds overhead limit q (m ∷ ms) h ∙ above) h.oldest))
            (subst
              (Ends overhead limit
                (alone overhead (rounds ms extra) (popped overhead q h.first, checks)))
              (sym (trimmed-above overhead limit m ms above)) at_end)
      | inr below ↦
          subst (Ends overhead limit (alone overhead (rounds (m ∷ ms) extra) (q, checks)))
            (sym (trimmed-below overhead limit m ms below))
            (stops-Ends overhead limit (suc (suc (suc (suc (suc (rounds ms extra)))))) q (m ∷ ms) h
              below)
    ]
