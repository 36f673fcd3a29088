-- ===== src/Hub/Queue/Backlog/Held.antt =====
-- A queue at rest (hub/messagequeue.go) and the messages that it holds.
use websockethub.Base.{
  ℕ, zero, suc, ◌+◌, ◌<◌, ◌≤◌, ◌≡◌, refl, ◌∙◌, ◌⊎◌, inl, inr, true, false, some, List, [], ◌∷◌,
  ◌++◌, arith, length, ◌==◌, if◌then◌else◌,
}
use mathlib.Core.Path.{subst}
use websockethub.Base.Int.{pos}
use websockethub.Hub.Queue.{Message, Entry, Queue, Appender, append_step, write, gt}

-- What a list of messages takes.
unfoldable pub total : ℕ → List Message → ℕ
total overhead [] = 0
total overhead (m ∷ ms) = overhead + length m + total overhead ms

-- The oldest messages go until the others take no more than the limit.
unfoldable pub trimmed : ℕ → ℕ → List Message → List Message
trimmed overhead limit [] = []
trimmed overhead limit (m ∷ ms) =
    let rest = trimmed overhead limit ms in
    if gt (pos (total overhead (m ∷ ms))) (pos limit) then rest else m ∷ ms

-- The operations of one call with nobody in between.
abbrev pub alone : ℕ → ℕ → Queue × Appender → Queue × Appender
alone overhead zero r = r
alone overhead (suc n) r = alone overhead n (append_step overhead r.0 r.1)

-- The entry is complete and has this message.
abbrev pub IsFull : (ℕ → Entry) → ℕ → Message → Type 0
IsFull h k m = h k ≡ record { next = some (suc k); msg = some m; valid = true }

-- The entries from a number on hold these messages.
abbrev pub Chain : (ℕ → Entry) → ℕ → List Message → Type 0
Chain h k [] = Unit
Chain h k (m ∷ ms) = IsFull h k m × Chain h (suc k) ms

-- A queue with nobody at work that holds these messages.
pub record Holds (overhead limit : ℕ) (q : Queue) (ms : List Message) : Type 0 where
  pub first : ℕ
  pub positive : 0 < first
  pub oldest : q.oldest ≡ some first
  pub newest : q.newest ≡ first + length ms
  pub chain : Chain q.heap first ms
  pub size : q.size ≡ pos (total overhead ms)
  pub maxsize : q.maxsize ≡ pos limit

pub ==_refl : (k : ℕ) → (k == k) ≡ true
==_refl k = ground arith

pub write_self : (k : ℕ) (e : Entry) (h : ℕ → Entry) → write k e h k ≡ e
write_self k e h = rw (==_refl k) refl

pub write_other : (k i : ℕ) (e : Entry) (h : ℕ → Entry) → (i < k) ⊎ (k < i) → write k e h i ≡ h i
write_other k i e h (inl lt) = let n : (i == k) ≡ false = ground arith in rw n refl
write_other k i e h (inr lt) = let n : (i == k) ≡ false = ground arith in rw n refl

pub Chain-write :
    (k : ℕ) (e : Entry) (h : ℕ → Entry) (i : ℕ) (ms : List Message)
    → (k < i) ⊎ (i + length ms ≤ k)
    → Chain h i ms
    → Chain (write k e h) i ms
Chain-write k e h i [] out c = tt
Chain-write k e h i (m ∷ ms) (inl lt) (f, c) =
    (write_other k i e h (inr lt) ∙ f, Chain-write k e h (suc i) ms (inl (omega arith)) c)
Chain-write k e h i (m ∷ ms) (inr le) (f, c) = (
  write_other k i e h (inl (omega arith)) ∙ f,
  Chain-write k e h (suc i) ms (inr (omega arith)) c,
)

pub Chain-append :
    (h : ℕ → Entry) (i : ℕ) (ms : List Message) (m : Message)
    → Chain h i ms
    → IsFull h (i + length ms) m
    → Chain h i (ms ++ m ∷ [])
Chain-append h i [] m c f = let e : i + 0 ≡ i = omega arith in (subst (λ k. IsFull h k m) e f, tt)
Chain-append h i (n ∷ ms) m (g, c) f =
    let e : i + suc (length ms) ≡ suc i + length ms = omega arith in
    (g, Chain-append h (suc i) ms m c (subst (λ k. IsFull h k m) e f))
