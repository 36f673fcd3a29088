-- ===== src/Host/Numbers.antt =====
-- The numbers that `quitDelay` of static/chatroomwidget.js counts with.
use websockethub.Base.{
  ℕ, zero, suc, ◌+◌, ◌-◌, ◌*◌, ◌^◌, Bool, false, ◌&&◌, ltb, leb, ◌==◌, if◌then◌else◌, [], ◌∷◌, ◌++◌,
  all, length,
}
use websockethub.Base.Int.{ℤ, pos, negsuc}
use websockethub.Text.{Text, text, is_digit, decimal}

-- A whole number from -2^53 to 2^53, or any other value, which the engine knows by a key: a
-- fraction, a larger number, an infinity or NaN.
pub data Num : Type 0 where
  int : ℤ → Num
  odd : ℕ → Num

-- Below -2^53 the result of `x - 1` rounds back to -2^53.
abbrev int_minus_one : ℤ → ℤ
int_minus_one (pos zero) = negsuc 0
int_minus_one (pos (suc n)) = pos n
int_minus_one (negsuc n) = if ltb (suc n) (2 ^ 53) then negsuc (suc n) else negsuc n

abbrev pub minus_one : (ℕ → Num) → Num → Num
minus_one odd_minus_one (int z) = int (int_minus_one z)
minus_one odd_minus_one (odd k) = odd_minus_one k

-- `x === n` for a small literal `n`.
abbrev pub is_num : ℕ → Num → Bool
is_num n (int (pos m)) = m == n
is_num n _ = false

unfoldable pub int_text : ℤ → Text
int_text (pos n) = decimal n
int_text (negsuc n) = text "-" ++ decimal (suc n)

abbrev pub num_text : (ℕ → Text) → Num → Text
num_text odd_text (int z) = int_text z
num_text odd_text (odd k) = odd_text k

unfoldable pub value : ℕ → Text → ℕ
value acc [] = acc
value acc (c ∷ s) = value (acc * 10 + (c - 48)) s

-- One to fifteen digits: the texts that `Number` reads as a whole number that is safe.
abbrev pub is_plain : Text → Bool
is_plain s = all is_digit s && (leb 1 (length s) && leb (length s) 15)

-- `Number(s)`
unfoldable pub to_number : (Text → Num) → Text → Num
unfolding value
to_number odd_number s = if is_plain s then int (pos (value 0 s)) else odd_number s
