-- ===== src/Title/Alternating.antt =====
-- `callAlternating` of static/chatroomwidget.js, over any type of functions: each round of the
-- interval runs the next one, in a circle.
use native.Mathlib.Nat.{mod-add-mod, mod-eq_of_lt, mod-lt}
use mathlib.Core.Option.{some-injective}
use mathlib.Core.Path.{subst}
use websockethub.Base.{
  ℕ, zero, suc, ◌+◌, ◌%◌, ◌≡◌, refl, sym, ap, ◌∙◌, ◌<◌, Option, none, some, List, [], ◌∷◌, length,
  get_elem?, arith,
}

-- The closure of the interval: `funcs` and `i`.
pub record Interval (F : Type 0) : Type 0 where
  pub funcs : List F
  pub i : ℕ

next_index : (i k n : ℕ) → ((i + 1) % n + k) % n ≡ (i + suc k) % n
next_index i k n = mod-add-mod (i + 1) n k ∙ ap (λ t. t % n) (omega arith)

first_index : (i n : ℕ) → i < n → (i + 0) % n ≡ i
first_index i n h = ap (λ t. t % n) (omega arith) ∙ mod-eq_of_lt h

module _ {F : Type 0} where
  -- `none` is the error that at least one function is required.
  unfoldable pub start : List F → Option (Interval F)
  start [] = none
  start (f ∷ fs) = some (record { funcs = f ∷ fs; i = 0 })

  advance : Interval F → Option F → Option (F × Interval F)
  advance a none = none
  advance a (some f) = some (f, record a { i = (a.i + 1) % length a.funcs })

  -- One round: the function that is run, and the closure after it.
  unfoldable pub fire : Interval F → Option (F × Interval F)
  unfolding advance
  fire a = advance a (get_elem? a.funcs a.i)

  collect : Option (F × Interval F) → (Interval F → List F) → List F
  collect none next = []
  collect (some (f, a)) next = f ∷ next a

  -- The functions that the first `n` rounds run.
  pub rounds : ℕ → Interval F → List F
  unfolding collect
  rounds zero a = []
  rounds (suc n) a = collect (fire a) (rounds n)

  get_elem?_of_lt : (fs : List F) (i : ℕ) → i < length fs → (f : F) × (get_elem? fs i ≡ some f)
  get_elem?_of_lt [] i h = absurd (omega arith)
  get_elem?_of_lt (f ∷ fs) zero h = (f, refl)
  get_elem?_of_lt (f ∷ fs) (suc i) h = get_elem?_of_lt fs i (omega arith)

  rounds_from :
      (fs : List F) (n k i : ℕ)
      → k < n
      → i < length fs
      → get_elem? (rounds n (record { funcs = fs; i = i })) k ≡ get_elem? fs ((i + k) % length fs)
  unfolding rounds fire
  rounds_from fs zero k i h lt = absurd (omega arith)
  rounds_from fs (suc n) zero i h lt =
      let (f, e) = get_elem?_of_lt fs i lt in
      rw (e, fire) (sym e ∙ ap (get_elem? fs) (sym (first_index i (length fs) lt)))
  rounds_from fs (suc n) (suc k) i h lt =
      let (f, e) = get_elem?_of_lt fs i lt in
      rw (e, fire)
        (rounds_from fs n k ((i + 1) % length fs) (omega arith) (mod-lt (i + 1) (omega arith))
          ∙ ap (get_elem? fs) (next_index i k (length fs)))

  -- Whatever functions are given, at least one, the round with number `k`, from 0 on, runs the one
  -- at the place that is `k` modulo their number.
  rounds-start :
      (f : F) (fs : List F) (n k : ℕ) {a : Interval F}
      → k < n
      → start (f ∷ fs) ≡ some a
      → get_elem? (rounds n a) k ≡ get_elem? (f ∷ fs) (k % length (f ∷ fs))
  unfolding start
  rounds-start f fs n k h e =
      subst (λ x. get_elem? (rounds n x) k ≡ get_elem? (f ∷ fs) (k % length (f ∷ fs)))
        (some-injective _ _ e)
        (rounds_from (f ∷ fs) n k 0 h (omega arith)
          ∙ ap (λ t. get_elem? (f ∷ fs) (t % length (f ∷ fs))) (omega arith))
