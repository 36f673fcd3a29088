-- ===== src/Text.antt =====
-- JavaScript strings as lists of UTF-16 code units, with the `String` methods that the widget
-- (static/chatroomwidget.js) calls.
pub mod Laws
pub mod Digits
use Prim.Native.Char.{code}
use Prim.Native.String.{String}
use websockethub.Base.{
  ℕ, zero, suc, ◌+◌, ◌/◌, ◌%◌, Bool, true, false, ◌&&◌, ◌||◌, Option, none, some, List, [], ◌∷◌,
  ◌++◌, leb, ltb, ◌==◌, if◌then◌else◌, drop, length,
}

abbrev pub Text : Type 0
Text = List ℕ

-- The code units of a literal: its characters, since all literals here are ASCII.
abbrev pub text : String → Text
text String.[] = []
text (String.◌∷◌ c s) = code c ∷ text s

-- `a === b`
abbrev pub text_eq : Text → Text → Bool
text_eq [] [] = true
text_eq (a ∷ s) (b ∷ t) = (a == b) && text_eq s t
text_eq _ _ = false

-- `s.indexOf(c)` for one code unit; `none` is -1.
unfoldable pub index_of : ℕ → Text → Option ℕ
index_of c [] = none
index_of c (a ∷ s) =
    if a == c then some 0 else (elim (index_of c s) [ none ↦ none | some i ↦ some (suc i) ])

-- `s.slice(0, -1)`
unfoldable pub drop_last : Text → Text
drop_last [] = []
drop_last (a ∷ []) = []
drop_last (a ∷ b ∷ s) = a ∷ drop_last (b ∷ s)

-- The classes `[A-Z]`, `[a-z]`, `[0-9]` and `\w`.
abbrev pub is_upper : ℕ → Bool
is_upper c = leb b'A' c && leb c b'Z'

abbrev pub is_lower : ℕ → Bool
is_lower c = leb b'a' c && leb c b'z'

abbrev pub is_digit : ℕ → Bool
is_digit c = leb b'0' c && leb c b'9'

unfoldable pub is_word : ℕ → Bool
is_word c = is_upper c || is_lower c || is_digit c || (c == b'_')

-- ASCII case folding, as the flag `i` of a regular expression does to ASCII units.
unfoldable pub fold : ℕ → ℕ
fold c = if is_upper c then c + 32 else c

-- A unit that `.` of a regular expression does not match.
unfoldable pub is_line_end : ℕ → Bool
is_line_end c = (c == 10) || (c == 13) || (c == 0x2028) || (c == 0x2029)

-- Decimal digits, as `String(n)` of an integer writes them.
unfoldable pub digits : ℕ → ℕ → Text
digits zero n = []
digits (suc fuel) n =
    let more = digits fuel (n / 10) ++ (48 + n % 10) ∷ [] in
    if ltb n 10 then (48 + n) ∷ [] else more

unfoldable pub decimal : ℕ → Text
unfolding digits
decimal n = digits (suc n) n

-- `s.startsWith(p)`
unfoldable pub starts_with : Text → Text → Bool
starts_with [] s = true
starts_with (a ∷ p) [] = false
starts_with (a ∷ p) (b ∷ s) = (a == b) && starts_with p s

-- `s.replace(p, r)` for strings: the first occurrence of `p`.
unfoldable pub replace_first : Text → Text → Text → Text
unfolding starts_with
replace_first p r [] = if starts_with p [] then r else []
replace_first p r (a ∷ s) =
    if starts_with p (a ∷ s) then r ++ drop (length p) (a ∷ s) else a ∷ replace_first p r s

drop_digits : Text → Text
drop_digits [] = []
drop_digits (a ∷ s) = if is_digit a then drop_digits s else a ∷ s

-- `s.replace(/\d+/, r)`: the first run of digits.
unfoldable pub replace_digits : Text → Text → Text
unfolding drop_digits
replace_digits r [] = []
replace_digits r (a ∷ s) = if is_digit a then r ++ drop_digits s else a ∷ replace_digits r s
