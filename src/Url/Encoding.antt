-- ===== src/Url/Encoding.antt =====
-- `encodeURIComponent`, with which `getWebsocketUrl` of static/chatroomwidget.js encodes the room.
use websockethub.Base.{
  ℕ, ◌+◌, ◌-◌, ◌*◌, ◌/◌, ◌%◌, Bool, true, false, ◌&&◌, ◌||◌, Option, none, some, List, [], ◌∷◌,
  ◌++◌, ltb, leb, ◌==◌, if◌then◌else◌,
}
use websockethub.Text.{Text, is_upper, is_lower, is_digit}

abbrev pub is_high : ℕ → Bool
is_high c = leb 0xd800 c && ltb c 0xdc00

abbrev pub is_low : ℕ → Bool
is_low c = leb 0xdc00 c && ltb c 0xe000

abbrev pub join : ℕ → ℕ → ℕ
join high low = (high - 0xd800) * 0x400 + (low - 0xdc00) + 0x10000

abbrev pub prepend : ℕ → Option (List ℕ) → Option (List ℕ)
prepend p none = none
prepend p (some ps) = some (p ∷ ps)

-- The code points of a text, the first half of a pair being read or not; `none` if a half of a
-- pair stands alone.
unfoldable pub points_from : Option ℕ → Text → Option (List ℕ)
points_from none [] = some []
points_from (some high) [] = none
points_from none (c ∷ s) = elim (is_high c) [
  | true ↦ points_from (some c) s
  | false ↦ elim (is_low c) [ true ↦ none | false ↦ prepend c (points_from none s) ]
]
points_from (some high) (c ∷ s) = elim (is_low c) [
  | true ↦ prepend (join high c) (points_from none s)
  | false ↦ none
]

unfoldable pub points : Text → Option (List ℕ)
unfolding points_from
points = points_from none

unfoldable pub utf8 : ℕ → List ℕ
utf8 p =
    if ltb p 0x80
    then p ∷ []
    else if ltb p 0x800
    then (0xc0 + p / 64) ∷ (0x80 + p % 64) ∷ []
    else if ltb p 0x10000
    then (0xe0 + p / 4096) ∷ (0x80 + p / 64 % 64) ∷ (0x80 + p % 64) ∷ []
    else (0xf0 + p / 262144) ∷ (0x80 + p / 4096 % 64) ∷ (0x80 + p / 64 % 64) ∷ (0x80 + p % 64) ∷ []

-- One of the letters, digits and marks that stay.
abbrev pub is_mark : ℕ → Bool
is_mark c =
    (c == b'-')
    || (c == b'_')
    || (c == b'.')
    || (c == b'!')
    || (c == b'~')
    || (c == b'*')
    || (c == 0x27)
    || (c == b'(')
    || (c == b')')

unfoldable pub is_unreserved : ℕ → Bool
is_unreserved c = is_upper c || is_lower c || is_digit c || is_mark c

unfoldable pub hex : ℕ → ℕ
hex d = if ltb d 10 then 48 + d else 55 + d

abbrev pub percent : ℕ → Text
percent b = b'%' ∷ hex (b / 16) ∷ hex (b % 16) ∷ []

unfoldable pub percent_all : List ℕ → Text
percent_all [] = []
percent_all (b ∷ bs) = percent b ++ percent_all bs

unfoldable pub encode_point : ℕ → Text
unfolding is_unreserved utf8 hex percent_all
encode_point p = if is_unreserved p then p ∷ [] else percent_all (utf8 p)

unfoldable pub encode_points : List ℕ → Text
unfolding encode_point
encode_points [] = []
encode_points (p ∷ ps) = encode_point p ++ encode_points ps

encode_decoded : Option (List ℕ) → Option Text
encode_decoded none = none
encode_decoded (some ps) = some (encode_points ps)

unfoldable pub encode_uri_component : Text → Option Text
unfolding points encode_decoded encode_points
encode_uri_component s = encode_decoded (points s)
