-- ===== src/Names/Laws.antt =====
-- The nicknames that static/chatroomwidget.js suggests, stores and finds again.
use native.Mathlib.Nat.{div-lt_iff_lt-mul}
use websockethub.Base.{
  ℕ, zero, suc, ◌/◌, ◌^◌, ◌<◌, ◌≡◌, refl, true, Option, some, List, [], ◌∷◌, ◌++◌, length,
  get_elem?, arith,
}
use websockethub.Text.{Text, text}
use websockethub.Host.{Host}
use websockethub.Names.{select_random_item, suggest_name, set_cached_name_safe, initial_name}
use websockethub.Names.Product.{product, product_lt}
use websockethub.Names.Words.{adjectives, nouns}

-- The item stands in the list.
abbrev pub IsItem : Text → List Text → Type 0
IsItem w ar = (i : ℕ) × (get_elem? ar i ≡ some w)

item_at : (ar : List Text) (i : ℕ) → i < length ar → (w : Text) × (get_elem? ar i ≡ some w)
item_at [] i h = absurd (omega arith)
item_at (w ∷ ar) zero h = (w, refl)
item_at (w ∷ ar) (suc i) h = item_at ar i (omega arith)

index_lt : (r n : ℕ) → r < 2 ^ 53 → 0 < n → product r n / 2 ^ 53 < n
index_lt r n h k = (div-lt_iff_lt-mul (omega arith)).1 (product_lt r n h k)

select_random_item-IsItem :
    (r : ℕ) (ar : List Text)
    → r < 2 ^ 53
    → 0 < length ar
    → (w : Text) × (select_random_item r ar ≡ some w) × IsItem w ar
unfolding select_random_item
select_random_item-IsItem r ar h k =
    let (w, e) = item_at ar (product r (length ar) / 2 ^ 53) (index_lt r (length ar) h k) in
    (w, e, (product r (length ar) / 2 ^ 53, e))

adjectives-length : length adjectives ≡ 250
unfolding adjectives
adjectives-length = refl

nouns-length : length nouns ≡ 250
unfolding nouns
nouns-length = refl

-- A suggestion is an adjective of the list, a space and a noun of the list, for all random numbers
-- from 0 to below 1: although the product with the length of the list is rounded to 53 bits, it stays
-- below the length.
pub suggest_name-words :
    (r s : ℕ)
    → r < 2 ^ 53
    → s < 2 ^ 53
    → (a n : Text) × IsItem a adjectives
      × IsItem n nouns
      × (suggest_name r s ≡ a ++ (text " " ++ n))
unfolding suggest_name
suggest_name-words r s h k =
    let (a, e, i) = select_random_item-IsItem r adjectives h (omega (arith, adjectives-length)) in
    let (n, f, j) = select_random_item-IsItem s nouns k (omega (arith, nouns-length)) in
    (a, n, i, j, rw (e, f) refl)

-- A nickname that one browser stores, and is not empty, is what another that reads it starts with.
pub initial_name-set_cached_name_safe :
    (host next_host : Host) (c : ℕ) (name : Text) (stored : Option Text)
    → host.writes ≡ true
    → next_host.reads ≡ true
    → initial_name next_host (set_cached_name_safe host (c ∷ name) stored) ≡ c ∷ name
unfolding initial_name set_cached_name_safe
initial_name-set_cached_name_safe host next_host c name stored w r = rw (r, w) refl
