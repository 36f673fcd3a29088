-- ===== src/Names.antt =====
-- Nicknames in static/chatroomwidget.js: suggestions, and the entry of `localStorage`.
pub mod Words
pub mod Product
pub mod Laws
use websockethub.Base.{
  ℕ, ◌/◌, ◌^◌, Option, none, some, List, [], ◌∷◌, ◌++◌, if◌then◌else◌, length, get_elem?,
}
use websockethub.Text.{Text, text}
use websockethub.Host.{Host}
use Words.{adjectives, nouns}
use Product.{product}

-- `ar[Math.floor(Math.random()*ar.length)]`, the random number being `r / 2^53`.
unfoldable pub select_random_item : ℕ → List Text → Option Text
unfolding product
select_random_item r ar = get_elem? ar (product r (length ar) / 2 ^ 53)

-- A missing item in a string.
abbrev pub item_text : Option Text → Text
item_text none = text "undefined"
item_text (some w) = w

unfoldable pub suggest_name : ℕ → ℕ → Text
unfolding select_random_item
suggest_name r s =
    item_text (select_random_item r adjectives)
    ++ (text " " ++ item_text (select_random_item s nouns))

-- `getCachedNameSafe`, for the entry of the storage: `none` is `null`, and no entry, and the empty
-- text stands for an error.
unfoldable pub get_cached_name_safe : Host → Option Text → Option Text
get_cached_name_safe host stored = if host.reads then stored else some []

-- `setCachedNameSafe`: the entry of the storage afterwards. An error leaves it as it was.
unfoldable pub set_cached_name_safe : Host → Text → Option Text → Option Text
set_cached_name_safe host name stored = if host.writes then some name else stored

abbrev pub name_or : Option Text → Text → Text
name_or none d = d
name_or (some []) d = d
name_or (some (c ∷ s)) d = c ∷ s

-- The value that the form for the nickname starts with.
unfoldable pub initial_name : Host → Option Text → Text
unfolding get_cached_name_safe suggest_name
initial_name host stored =
    name_or (get_cached_name_safe host stored) (suggest_name host.random_adjective host.random_noun)
