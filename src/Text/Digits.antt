-- ===== src/Text/Digits.antt =====
-- Runs of digits in texts: what the two replacements of the countdown (static/chatroomwidget.js) do.
use websockethub.Base.{
  ℕ, zero, suc, ◌+◌, ◌/◌, ◌%◌, ◌≡◌, refl, inl, inr, Bool, true, [], ◌∷◌, ◌++◌, all, ltb, arith,
  Bool-cases,
}
use websockethub.Text.{
  Text, text, is_digit, starts_with, drop_digits, replace_digits, replace_first, digits, decimal,
}

-- One digit or more.
abbrev pub IsNumeral : Text → Type 0
IsNumeral [] = ⊥
IsNumeral (c ∷ s) = all is_digit (c ∷ s) ≡ true

drop_digits-append : (s t : Text) → all is_digit s ≡ true → drop_digits (s ++ 32 ∷ t) ≡ 32 ∷ t
unfolding drop_digits
drop_digits-append [] t h = refl
drop_digits-append (c ∷ s) t h = ground (arith, drop_digits-append s t)

-- The numeral before a space, at the head of a text, is replaced as a whole.
pub replace_digits-numeral :
    (r s t : Text) → IsNumeral s → replace_digits r (s ++ 32 ∷ t) ≡ r ++ 32 ∷ t
unfolding replace_digits
replace_digits-numeral r [] t h = absurd h
replace_digits-numeral r (c ∷ s) t h = ground (arith, drop_digits-append s t)

-- A numeral holds no letter.
pub replace_first-numeral :
    (r s t : Text)
    → all is_digit s ≡ true
    → replace_first (text "seconds") r (s ++ t) ≡ s ++ replace_first (text "seconds") r t
unfolding replace_first starts_with
replace_first-numeral r [] t h = refl
replace_first-numeral r (c ∷ s) t h = ground (arith, replace_first-numeral r s t)

all-append : (p : ℕ → Bool) (s t : Text) → all p s ≡ true → all p t ≡ true → all p (s ++ t) ≡ true
all-append p [] t h k = k
all-append p (c ∷ s) t h k = ground (arith, all-append p s t)

digits-all : (fuel n : ℕ) → all is_digit (digits fuel n) ≡ true
unfolding digits
digits-all zero n = refl
digits-all (suc fuel) n = elim (Bool-cases (ltb n 10)) [
  | inl e ↦ rw e (ground arith)
  | inr e ↦ rw e (
      all-append is_digit (digits fuel (n / 10)) ((48 + n % 10) ∷ []) (digits-all fuel (n / 10))
        (ground arith))
]

IsNumeral-append : (s : Text) (c : ℕ) → all is_digit (s ++ c ∷ []) ≡ true → IsNumeral (s ++ c ∷ [])
IsNumeral-append [] c h = h
IsNumeral-append (d ∷ s) c h = h

pub decimal-IsNumeral : (n : ℕ) → IsNumeral (decimal n)
unfolding decimal
decimal-IsNumeral n = elim (Bool-cases (ltb n 10)) [
  | inl e ↦ rw e (ground arith)
  | inr e ↦ rw e (
      IsNumeral-append (digits n (n / 10)) (48 + n % 10) (
        all-append is_digit (digits n (n / 10)) ((48 + n % 10) ∷ []) (digits-all n (n / 10))
          (ground arith)))
]
