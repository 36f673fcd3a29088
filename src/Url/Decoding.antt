-- ===== src/Url/Decoding.antt =====
-- How a server reads the room that `getWebsocketUrl` of static/chatroomwidget.js has encoded: the
-- escapes of a query, UTF-8, and the code units of a text. The round trip through all three.
use websockethub.Base.{
  ℕ, zero, suc, ◌+◌, ◌-◌, ◌*◌, ◌/◌, ◌%◌, ◌<◌, ◌≡◌, true, false, ◌&&◌, Option, none, some, List, [],
  ◌∷◌, ◌++◌, ltb, leb, ◌==◌, if◌then◌else◌, All, arith,
}
use websockethub.Text.{Text, is_digit}
use websockethub.Url.Encoding.{prepend, utf8, is_unreserved, hex, percent, percent_all}

pub hex_value : ℕ → Option ℕ
hex_value d =
    if is_digit d
    then some (d - 48)
    else if leb b'A' d && leb d b'F'
    then some (d - 55)
    else if leb b'a' d && leb d b'f'
    then some (d - 87)
    else none

byte_of : Option ℕ → Option ℕ → Option (List ℕ) → Option (List ℕ)
byte_of (some h) (some l) (some bs) = some ((h * 16 + l) ∷ bs)
byte_of _ _ _ = none

-- `+` stands for a space.
abbrev plain_byte : ℕ → ℕ
plain_byte c = if c == b'+' then 32 else c

unfoldable pub query_unescape : Text → Option (List ℕ)
unfolding byte_of hex_value
query_unescape [] = some []
query_unescape (c ∷ []) = if c == b'%' then none else some (plain_byte c ∷ [])
query_unescape (c ∷ d ∷ []) =
    if c == b'%' then none else prepend (plain_byte c) (query_unescape (d ∷ []))
query_unescape (c ∷ d ∷ e ∷ s) = elim (c == b'%') [
  | true ↦ byte_of (hex_value d) (hex_value e) (query_unescape s)
  | false ↦ prepend (plain_byte c) (query_unescape (d ∷ e ∷ s))
]

-- `left` bytes of the code point are to come, and `acc` is what the earlier ones gave.
unfoldable pub from_utf8 : ℕ → ℕ → List ℕ → Option (List ℕ)
from_utf8 zero acc [] = some []
from_utf8 (suc left) acc [] = none
from_utf8 zero acc (b ∷ bs) = elim (ltb b 0x80) [
  | true ↦ prepend b (from_utf8 0 0 bs)
  | false ↦ elim (ltb b 0xe0) [
    | true ↦ from_utf8 1 (b - 0xc0) bs
    | false ↦ elim (ltb b 0xf0) [
      | true ↦ from_utf8 2 (b - 0xe0) bs
      | false ↦ from_utf8 3 (b - 0xf0) bs
    ]
  ]
]
from_utf8 (suc zero) acc (b ∷ bs) = prepend (acc * 64 + (b - 0x80)) (from_utf8 0 0 bs)
from_utf8 (suc (suc left)) acc (b ∷ bs) = from_utf8 (suc left) (acc * 64 + (b - 0x80)) bs

unfoldable pub units_of : ℕ → Text
units_of p =
    if ltb p 0x10000
    then p ∷ []
    else (0xd800 + (p - 0x10000) / 0x400) ∷ (0xdc00 + (p - 0x10000) % 0x400) ∷ []

unfoldable pub to_units : List ℕ → Text
unfolding units_of
to_units [] = []
to_units (p ∷ ps) = units_of p ++ to_units ps

map_units : Option (List ℕ) → Option Text
map_units none = none
map_units (some ps) = some (to_units ps)

decode_bytes : Option (List ℕ) → Option Text
unfolding map_units from_utf8
decode_bytes none = none
decode_bytes (some bs) = map_units (from_utf8 0 0 bs)

-- The text that a server reads from a value of a query.
unfoldable pub decode_query : Text → Option Text
unfolding decode_bytes query_unescape to_units
decode_query s = decode_bytes (query_unescape s)

hex_value-hex : (d : ℕ) → d < 16 → hex_value (hex d) ≡ some d
unfolding hex_value hex
hex_value-hex d h = ground arith

unescape-percent :
    (b : ℕ) (s : Text) {bs : List ℕ}
    → b < 256
    → query_unescape s ≡ some bs
    → query_unescape (percent b ++ s) ≡ some (b ∷ bs)
unfolding query_unescape byte_of
unescape-percent b s h e = ground (arith, hex_value-hex (b / 16), hex_value-hex (b % 16))

pub unescape-percent_all :
    (bs : List ℕ) (s : Text) {rest : List ℕ}
    → All (λ b. b < 256) bs
    → query_unescape s ≡ some rest
    → query_unescape (percent_all bs ++ s) ≡ some (bs ++ rest)
unfolding percent_all
unescape-percent_all [] s h e = e
unescape-percent_all (b ∷ bs) s (h, hs) e =
    unescape-percent b (percent_all bs ++ s) h (unescape-percent_all bs s hs e)

pub unescape-plain :
    (c : ℕ) (s : Text) {bs : List ℕ}
    → is_unreserved c ≡ true
    → query_unescape s ≡ some bs
    → query_unescape (c ∷ s) ≡ some (c ∷ bs)
unfolding query_unescape is_unreserved
unescape-plain c [] h e = ground arith
unescape-plain c (d ∷ []) h e = ground arith
unescape-plain c (d ∷ f ∷ s) h e = ground arith

pub utf8-bytes : (p : ℕ) → p < 0x110000 → All (λ b. b < 256) (utf8 p)
unfolding utf8
utf8-bytes p h = ground arith

pub unreserved-utf8 : (p : ℕ) → is_unreserved p ≡ true → utf8 p ≡ p ∷ []
unfolding is_unreserved utf8
unreserved-utf8 p h = ground arith
