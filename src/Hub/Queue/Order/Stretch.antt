-- ===== src/Hub/Queue/Order/Stretch.antt =====
-- Contiguous parts of the messages of a queue (hub/messagequeue.go), and how far a listener has got.
use websockethub.Base.{
  ℕ, zero, suc, ◌+◌, ◌≡◌, refl, ◌∙◌, ap, sym, ◌⊎◌, inl, inr, Option, none, some, List, [], ◌∷◌,
  ◌++◌, append_assoc, arith, length, length-append, get_elem?,
}
use mathlib.Core.Option.{some-injective}
use websockethub.Hub.Queue.{
  Message, Queue, Appender, links, stores, Place, follows, sends, has_sent, closed, stopped,
  crashed, stale,
}

-- The message of the call that took the place of an entry.
abbrev pub placed_at : List Message → ℕ → Option Message
placed_at log zero = none
placed_at log (suc k) = get_elem? log k

-- A pointer to the next entry, if it is set: to the one that came after, or to the stale one.
pub data IsNext (k : ℕ) : Option ℕ → Type 0 where
  unset : IsNext k none
  cut : IsNext k (some stale)
  linked : IsNext k (some (suc k))

pub data IsMessage (log : List Message) (k : ℕ) : Option Message → Type 0 where
  not_yet : IsMessage log k none
  stored : (m : Message) → placed_at log k ≡ some m → IsMessage log k (some m)

pub record IsOrdered (q : Queue) : Type 0 where
  pub newest : q.newest ≡ suc (length q.placed)
  pub nexts : (k : ℕ) → IsNext k (q.heap k).next
  pub messages : (k : ℕ) → IsMessage q.placed k (q.heap k).msg

-- A call that is about to write a message has taken that message's place.
abbrev pub IsPlaced : List Message → Appender → Type 0
IsPlaced log (links m e) = placed_at log e ≡ some m
IsPlaced log (stores m e) = placed_at log e ≡ some m
IsPlaced log _ = Unit

-- A contiguous part of the messages, in their order.
abbrev pub IsStretch : List Message → List Message → Type 0
IsStretch ds log =
    (before : List Message) × (after : List Message) × (log ≡ before ++ (ds ++ after))

-- The part that ends before the message with the number `k`; or nothing yet.
abbrev pub EndsAt : List Message → List Message → ℕ → Type 0
EndsAt ds log k =
    (ds ≡ [])
    ⊎ ((before : List Message) × (after : List Message) × (log ≡ before ++ (ds ++ after))
        × (length before + length ds ≡ k))

abbrev pub IsAtPlace : List Message → List Message → Place → Type 0
IsAtPlace ds log (follows none) = IsStretch ds log
IsAtPlace ds log (follows (some zero)) = IsStretch ds log
IsAtPlace ds log (follows (some (suc k))) = EndsAt ds log k
IsAtPlace ds log (sends zero) = ⊥
IsAtPlace ds log (sends (suc k)) = EndsAt ds log k
IsAtPlace ds log (has_sent zero) = ⊥
IsAtPlace ds log (has_sent (suc k)) = EndsAt ds log (suc k)
IsAtPlace ds log closed = IsStretch ds log
IsAtPlace ds log stopped = IsStretch ds log
IsAtPlace ds log crashed = IsStretch ds log

pub EndsAt-IsStretch : (ds log : List Message) (k : ℕ) → EndsAt ds log k → IsStretch ds log
EndsAt-IsStretch ds log k (inl e) = ([], log, ap (λ l. l ++ log) (sym e))
EndsAt-IsStretch ds log k (inr (before, after, e, n)) = (before, after, e)

-- Another message at the end.
pub more :
    (before ds after : List Message) (m : Message) {log : List Message}
    → log ≡ before ++ (ds ++ after)
    → log ++ m ∷ [] ≡ before ++ (ds ++ (after ++ m ∷ []))
more before ds after m e = ap (λ l. l ++ m ∷ []) e ∙ simp append_assoc

pub IsStretch-more :
    (ds log : List Message) (m : Message) → IsStretch ds log → IsStretch ds (log ++ m ∷ [])
IsStretch-more ds log m (before, after, e) = (before, after ++ m ∷ [], more before ds after m e)

pub EndsAt-more :
    (ds log : List Message) (k : ℕ) (m : Message) → EndsAt ds log k → EndsAt ds (log ++ m ∷ []) k
EndsAt-more ds log k m (inl e) = inl e
EndsAt-more ds log k m (inr (before, after, e, n)) =
    inr (before, after ++ m ∷ [], more before ds after m e, n)

pub IsAtPlace-more :
    (ds log : List Message) (m : Message) (p : Place)
    → IsAtPlace ds log p
    → IsAtPlace ds (log ++ m ∷ []) p
IsAtPlace-more ds log m (follows none) h = IsStretch-more ds log m h
IsAtPlace-more ds log m (follows (some zero)) h = IsStretch-more ds log m h
IsAtPlace-more ds log m (follows (some (suc k))) h = EndsAt-more ds log k m h
IsAtPlace-more ds log m (sends zero) h = h
IsAtPlace-more ds log m (sends (suc k)) h = EndsAt-more ds log k m h
IsAtPlace-more ds log m (has_sent zero) h = h
IsAtPlace-more ds log m (has_sent (suc k)) h = EndsAt-more ds log (suc k) m h
IsAtPlace-more ds log m closed h = IsStretch-more ds log m h
IsAtPlace-more ds log m stopped h = IsStretch-more ds log m h
IsAtPlace-more ds log m crashed h = IsStretch-more ds log m h

pub IsAtPlace-IsStretch :
    (ds log : List Message) (p : Place) → IsAtPlace ds log p → IsStretch ds log
IsAtPlace-IsStretch ds log (follows none) h = h
IsAtPlace-IsStretch ds log (follows (some zero)) h = h
IsAtPlace-IsStretch ds log (follows (some (suc k))) h = EndsAt-IsStretch ds log k h
IsAtPlace-IsStretch ds log (sends zero) h = absurd h
IsAtPlace-IsStretch ds log (sends (suc k)) h = EndsAt-IsStretch ds log k h
IsAtPlace-IsStretch ds log (has_sent zero) h = absurd h
IsAtPlace-IsStretch ds log (has_sent (suc k)) h = EndsAt-IsStretch ds log (suc k) h
IsAtPlace-IsStretch ds log closed h = h
IsAtPlace-IsStretch ds log stopped h = h
IsAtPlace-IsStretch ds log crashed h = h

pub next_is :
    (xs after : List Message) {m : Message}
    → get_elem? (xs ++ after) (length xs) ≡ some m
    → (rest : List Message) × (after ≡ m ∷ rest)
next_is [] [] e = absurd (cc)
next_is [] (x ∷ after) e = (after, ap (λ (y : Message). y ∷ after) (some-injective _ _ e))
next_is (x ∷ xs) after e = next_is xs after e

pub split_at :
    (log : List Message) (k : ℕ) {m : Message}
    → get_elem? log k ≡ some m
    → (before : List Message) × (after : List Message) × (log ≡ before ++ (m ∷ after))
      × (length before ≡ k)
split_at [] k e = absurd (cc)
split_at (x ∷ log) zero e = ([], log, ap (λ (y : Message). y ∷ log) (some-injective _ _ e), refl)
split_at (x ∷ log) (suc k) e =
    let (before, after, f, n) = split_at log k e in (x ∷ before, after, ap (x ∷◌) f, ap suc n)

-- After the message with the number `k`.
pub EndsAt-deliver :
    (ds log : List Message) (k : ℕ) (m : Message)
    → get_elem? log k ≡ some m
    → EndsAt ds log k
    → EndsAt (ds ++ m ∷ []) log (suc k)
EndsAt-deliver ds log k m e (inl none_yet) =
    let (before, after, f, n) = split_at log k e in
    inr (before, after, rw none_yet f, rw none_yet (omega (arith, n)))
EndsAt-deliver ds log k m e (inr (before, after, f, n)) =
    let whole : log ≡ before ++ ds ++ after = f ∙ simp append_assoc in
    let here : length (before ++ ds) ≡ k = length-append before ds ∙ n in
    let (rest, g) =
      next_is (before ++ ds) after
        (ap (get_elem? (before ++ ds ++ after)) here ∙ (ap (λ l. get_elem? l k) (sym whole) ∙ e)) in
    inr (
      before,
      rest,
      f ∙ ap (before ++◌) (ap (ds ++◌) g ∙ sym (append_assoc ds (m ∷ []) rest)),
      omega (arith, length-append {0} ds (m ∷ []), n),
    )

pub get_elem?-append :
    (log more : List Message) (k : ℕ) {m : Message}
    → get_elem? log k ≡ some m
    → get_elem? (log ++ more) k ≡ some m
get_elem?-append [] more k e = absurd (cc)
get_elem?-append (x ∷ log) more zero e = e
get_elem?-append (x ∷ log) more (suc k) e = get_elem?-append log more k e

pub get_elem?-append_length :
    (log : List Message) (m : Message) → get_elem? (log ++ m ∷ []) (length log) ≡ some m
get_elem?-append_length [] m = refl
get_elem?-append_length (x ∷ log) m = get_elem?-append_length log m

pub placed_at-more :
    (log more : List Message) (k : ℕ) {m : Message}
    → placed_at log k ≡ some m
    → placed_at (log ++ more) k ≡ some m
placed_at-more log more zero e = absurd (cc)
placed_at-more log more (suc k) e = get_elem?-append log more k e
