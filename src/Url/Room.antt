-- ===== src/Url/Room.antt =====
-- The room that a server reads from the address that static/chatroomwidget.js connects to.
use websockethub.Base.{
  ℕ, ◌/◌, ◌%◌, ◌<◌, ◌≤◌, ◌≡◌, refl, sym, ap, ◌∙◌, true, ◌||◌, ◌==◌, ◌⊎◌, Option, none, some, List,
  [], ◌∷◌, ◌++◌, All, All-append, arith, Bool-cases, Option-cases, inl, inr,
}
use mathlib.Core.Option.{some-injective}
use websockethub.Text.{Text}
use websockethub.Url.{Page, Config, given, room_of, hub_address, get_websocket_url}
use websockethub.Url.Encoding.{
  hex, percent, percent_all, is_high, is_low, join, prepend, points_from, points, utf8,
  is_unreserved, encode_point, encode_points,
}
use websockethub.Url.Decoding.{
  query_unescape, from_utf8, to_units, decode_query, unescape-percent_all, unescape-plain,
  utf8-bytes, unreserved-utf8,
}

abbrev IsPoint : ℕ → Type 0
IsPoint p = p < 0x110000

-- The bytes of code points.
bytes : List ℕ → List ℕ
bytes [] = []
bytes (p ∷ ps) = utf8 p ++ bytes ps

unescape-encode_points :
    (ps : List ℕ) → All IsPoint ps → query_unescape (encode_points ps) ≡ some (bytes ps)
unfolding bytes encode_points query_unescape
unescape-encode_points [] h = refl
unescape-encode_points (p ∷ ps) (h, hs) = elim (Bool-cases (is_unreserved p)) [
  | inl e ↦
      rw (e, encode_point, unreserved-utf8 p e)
        (unescape-plain p (encode_points ps) e (unescape-encode_points ps hs))
  | inr e ↦
      rw (e, encode_point)
        (unescape-percent_all (utf8 p) (encode_points ps) (utf8-bytes p h)
          (unescape-encode_points ps hs))
]

from_utf8-utf8 :
    (p : ℕ) (bs : List ℕ) → IsPoint p → from_utf8 0 0 (utf8 p ++ bs) ≡ prepend p (from_utf8 0 0 bs)
unfolding from_utf8 utf8
from_utf8-utf8 p bs h = ground arith

from_utf8-bytes : (ps : List ℕ) → All IsPoint ps → from_utf8 0 0 (bytes ps) ≡ some ps
unfolding bytes from_utf8
from_utf8-bytes [] h = refl
from_utf8-bytes (p ∷ ps) (h, hs) =
    from_utf8-utf8 p (bytes ps) h ∙ ap (prepend p) (from_utf8-bytes ps hs)

-- Every unit of a text has sixteen bits.
abbrev pub IsUnits : Text → Type 0
IsUnits = All (λ c. c < 0x10000)

-- A first half of a pair that is being read, and what it adds to a text.
abbrev IsState : Option ℕ → Type 0
IsState none = Unit
IsState (some high) = is_high high ≡ true

abbrev held : Option ℕ → Text
held none = []
held (some high) = high ∷ []

abbrev Spells : List ℕ → Text → Type 0
Spells ps s = All IsPoint ps × (to_units ps ≡ s)

prepend-eq-some :
    (p : ℕ) (o : Option (List ℕ)) {ps : List ℕ}
    → prepend p o ≡ some ps
    → (qs : List ℕ) × (o ≡ some qs) × (ps ≡ p ∷ qs)
prepend-eq-some p none e = cc
prepend-eq-some p (some qs) e = (qs, refl, cc)

Spells-unit : (c : ℕ) (s : Text) (ps : List ℕ) → c < 0x10000 → Spells ps s → Spells (c ∷ ps) (c ∷ s)
unfolding to_units
Spells-unit c s ps h (k, e) = ((omega arith, k), ground arith)

Spells-pair :
    (high low : ℕ) (s : Text) (ps : List ℕ)
    → is_high high ≡ true
    → is_low low ≡ true
    → Spells ps s
    → Spells (join high low ∷ ps) (high ∷ low ∷ s)
unfolding to_units
Spells-pair high low s ps h l (k, e) = ((ground arith, k), ground arith)

points_from-Spells :
    (o : Option ℕ) (s : Text) (ps : List ℕ)
    → IsState o
    → IsUnits s
    → points_from o s ≡ some ps
    → Spells ps (held o ++ s)
unfolding points_from
points_from-Spells none [] ps k u e = unfold to_units in ground arith
points_from-Spells (some high) [] ps k u e = absurd (cc)
points_from-Spells none (c ∷ s) ps k (u, us) e = elim (Bool-cases (is_high c)) [
  | inl h ↦ points_from-Spells (some c) s ps h us (rw (h, points_from) at e)
  | inr n ↦ elim (Bool-cases (is_low c)) [
    | inl l ↦ absurd (cc (rw (n, l, points_from) at e))
    | inr m ↦
        let (qs, f, same) = prepend-eq-some c (points_from none s) (rw (n, m, points_from) at e) in
        rw same (Spells-unit c s qs u (points_from-Spells none s qs tt us f))
  ]
]
points_from-Spells (some high) (c ∷ s) ps k (u, us) e = elim (Bool-cases (is_low c)) [
  | inl l ↦
      let (qs, f, same) =
        prepend-eq-some (join high c) (points_from none s) (rw (l, points_from) at e) in
      rw same (Spells-pair high c s qs k l (points_from-Spells none s qs tt us f))
  | inr m ↦ absurd (cc (rw (m, points_from) at e))
]

decode_query-encode_points :
    (s : Text) (ps : List ℕ)
    → IsUnits s
    → points s ≡ some ps
    → decode_query (encode_points ps) ≡ some s
unfolding decode_query points
decode_query-encode_points s ps u e =
    let (k, same) = points_from-Spells none s ps tt u e in
    rw (unescape-encode_points ps k, decode_query, from_utf8-bytes ps k) (ap some same)

-- A letter, digit or mark that needs no escape, or the sign of one.
abbrev pub IsQueryUnit : ℕ → Type 0
IsQueryUnit c = (is_unreserved c || (c == b'%')) ≡ true

percent-IsQueryUnit : (b : ℕ) → b < 256 → All IsQueryUnit (percent b)
unfolding hex is_unreserved
percent-IsQueryUnit b h =
    (refl, (hex_unit (b / 16) (omega arith), (hex_unit (b % 16) (omega arith), tt)))
  where
    hex_unit : (d : ℕ) → d < 16 → IsQueryUnit (hex d)
    hex_unit d h = ground arith

percent_all-IsQueryUnit : (bs : List ℕ) → All (λ b. b < 256) bs → All IsQueryUnit (percent_all bs)
unfolding percent_all
percent_all-IsQueryUnit [] h = tt
percent_all-IsQueryUnit (b ∷ bs) (h, hs) =
    All-append IsQueryUnit (percent b) (percent_all bs) (percent-IsQueryUnit b h)
      (percent_all-IsQueryUnit bs hs)

encode_point-IsQueryUnit : (p : ℕ) → IsPoint p → All IsQueryUnit (encode_point p)
encode_point-IsQueryUnit p h = elim (Bool-cases (is_unreserved p)) [
  | inl e ↦ unfold encode_point in rw e (rw e refl, tt)
  | inr e ↦ unfold encode_point in rw e (percent_all-IsQueryUnit (utf8 p) (utf8-bytes p h))
]

encode_points-IsQueryUnit : (ps : List ℕ) → All IsPoint ps → All IsQueryUnit (encode_points ps)
unfolding encode_points
encode_points-IsQueryUnit [] h = tt
encode_points-IsQueryUnit (p ∷ ps) (h, hs) =
    All-append IsQueryUnit (encode_point p) (encode_points ps) (encode_point-IsQueryUnit p h)
      (encode_points-IsQueryUnit ps hs)

-- A server that reads the query as URLs and UTF-8 prescribe gets back exactly the room. Whatever
-- the configuration and the page, if the units of the room have sixteen bits and the script finds
-- an address, then the address is that of the hub followed by a value that decodes to the room, in
-- which every unit is a letter, a digit, a mark that needs no escape, or a percent sign.
pub room-get_websocket_url :
    (config : Option Config) (page : Page) (url : Text)
    → IsUnits (room_of (given config) page)
    → get_websocket_url config page ≡ some url
    → (query : Text) × (url ≡ hub_address (given config) page ++ query)
      × (decode_query query ≡ some (room_of (given config) page))
      × All IsQueryUnit query
unfolding get_websocket_url
room-get_websocket_url config page url u e = elim (Option-cases (points room)) [
  | inl n ↦ absurd (cc (rw (n, get_websocket_url) at e))
  | inr (ps, f) ↦ (
    encode_points ps,
    sym (some-injective _ _ (rw (f, get_websocket_url) at e)),
    decode_query-encode_points room ps u f,
    encode_points-IsQueryUnit ps (points_from-Spells none room ps tt u (unfold points in f)).0,
  )
]
  where
    room : Text
    room = room_of (given config) page

-- No half of a pair of units.
abbrev pub IsWhole : ℕ → Type 0
IsWhole c = (c < 0xd800) ⊎ (0xe000 ≤ c)

points_from-whole : (s : Text) → All IsWhole s → (ps : List ℕ) × (points_from none s ≡ some ps)
unfolding points_from
points_from-whole [] h = ([], refl)
points_from-whole (c ∷ s) (h, hs) = let (ps, e) = points_from-whole s hs in (c ∷ ps, ground arith)

-- The script finds an address whatever the configuration and the page, if the room has no half of a
-- pair of UTF-16 units.
pub get_websocket_url-total :
    (config : Option Config) (page : Page)
    → All IsWhole (room_of (given config) page)
    → (url : Text) × (get_websocket_url config page ≡ some url)
unfolding get_websocket_url points
get_websocket_url-total config page h =
    let (ps, e) = points_from-whole (room_of (given config) page) h in
    (hub_address (given config) page ++ encode_points ps, rw (e, get_websocket_url))
