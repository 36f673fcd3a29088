-- ===== src/Names/Product.antt =====
-- `Math.random() * n` in static/chatroomwidget.js: a product of floating point numbers, of which the
-- largest 53 bits are kept.
use native.Mathlib.Nat.{div-add-mod', mod-lt, pow-succ'}
use mathlib.Core.Path.{subst}
use websockethub.Base.{
  ℕ, zero, suc, ◌+◌, ◌*◌, ◌/◌, ◌%◌, ◌^◌, ◌<◌, ◌≤◌, ◌≡◌, refl, sym, ap, ◌∙◌, ◌⊎◌, inl, inr, Bool,
  true, false, ltb, ◌==◌, Bool-cases, if◌then◌else◌, arith,
}

-- How many of the lowest bits of a number do not fit, if it has at most this many more than 53.
unfoldable pub excess : ℕ → ℕ → ℕ
excess zero p = 0
excess (suc most) p = let rest = excess most (p / 2) in if ltb p (2 ^ 53) then 0 else suc rest

-- To the nearest integer, or the even one of two.
unfoldable pub nearest : ℕ → ℕ → ℕ
nearest p d =
    if ltb (2 * (p % d)) d
    then p / d
    else if 2 * (p % d) == d
    then p / d + p / d % 2
    else suc (p / d)

-- The product of `r / 2^53` and `n`, times 2^53.
unfoldable pub product : ℕ → ℕ → ℕ
unfolding excess nearest
product r n = let d = 2 ^ excess n (r * n) in nearest (r * n) d * d

ltb_ge : (a b : ℕ) → ltb a b ≡ false → b ≤ a
ltb_ge a b e = ground arith

ltb_lt : (a b : ℕ) → ltb a b ≡ true → a < b
ltb_lt a b e = ground arith

excess-large :
    (most p : ℕ) → ltb p (2 ^ 53) ≡ false → 2 ^ excess (suc most) p ≡ 2 * 2 ^ excess most (p / 2)
unfolding excess
excess-large most p large =
    ap (λ (b : Bool). 2 ^ (if b then 0 else suc (excess most (p / 2)))) large
    ∙ pow-succ' 2 (excess most (p / 2))

excess-small : (most p : ℕ) → ltb p (2 ^ 53) ≡ true → 2 ^ excess (suc most) p ≡ 1
unfolding excess
excess-small most p small =
    ap (λ (b : Bool). 2 ^ (if b then 0 else suc (excess most (p / 2)))) small

-- No more bits are dropped than must be.
excess-bound : (most p : ℕ) → (2 ^ excess most p ≡ 1) ⊎ (2 ^ 52 * 2 ^ excess most p ≤ p)
excess-bound zero p = unfold excess in inl refl
excess-bound (suc most) p = elim (Bool-cases (ltb p (2 ^ 53))) [
  | inl small ↦ inl (excess-small most p small)
  | inr large ↦
      let above : 2 ^ 53 ≤ p = ltb_ge p (2 ^ 53) large in
      inr (
        subst (λ d. 2 ^ 52 * d ≤ p) (sym (excess-large most p large))
          (elim (excess-bound most (p / 2)) [
            | inl one ↦ omega (arith, one, above)
            | inr le ↦ omega (arith, le)
          ]))
]

-- All others are, if there are not too many of them.
excess-enough : (most p : ℕ) → p < 2 ^ 53 * 2 ^ most → p < 2 ^ 53 * 2 ^ excess most p
excess-enough zero p h = unfold excess in h
excess-enough (suc most) p h = elim (Bool-cases (ltb p (2 ^ 53))) [
  | inl small ↦
      subst (λ d. p < 2 ^ 53 * d) (sym (excess-small most p small)) (ltb_lt p (2 ^ 53) small)
  | inr large ↦
      let half = excess-enough most (p / 2) (omega (arith, h, pow-succ' 2 most)) in
      subst (λ d. p < 2 ^ 53 * d) (sym (excess-large most p large)) (omega (arith, half))
]

two_pow_pos : (n : ℕ) → 0 < 2 ^ n
two_pow_pos zero = omega arith
two_pow_pos (suc n) = omega (arith, pow-succ' 2 n, two_pow_pos n)

bump : (q d x : ℕ) → x < 2 → 2 * ((q + x) * d) ≤ 2 * (q * d) + 2 * d
bump q d zero h = grind arith
bump q d (suc zero) h = grind arith
bump q d (suc (suc x)) h = absurd (omega arith)

-- At most half of the last bit that is kept is added.
nearest-bound : (p d : ℕ) → 2 * (nearest p d * d) ≤ 2 * p + d
unfolding nearest
nearest-bound p d =
    let parts : p / d * d + p % d ≡ p = div-add-mod' p d in
    elim (Bool-cases (ltb (2 * (p % d)) d)) [
      | inl low ↦ rw low (omega (arith, parts))
      | inr high ↦
          let half : d ≤ 2 * (p % d) = ltb_ge (2 * (p % d)) d high in
          rw high (elim (Bool-cases (2 * (p % d) == d)) [
            | inl tie ↦ rw tie (
                omega
                  (arith, parts, half, bump (p / d) d (p / d % 2) (mod-lt (p / d) (omega arith))))
            | inr over ↦ rw over (omega (arith, parts, half, bump (p / d) d 1 (omega arith)))
          ])
    ]

pub product_lt : (r n : ℕ) → r < 2 ^ 53 → 0 < n → product r n < n * 2 ^ 53
unfolding product
product_lt r n h k =
    let within : r * n + n ≤ 2 ^ 53 * n = grind arith in
    let near : 2 * (nearest (r * n) (2 ^ excess n (r * n)) * 2 ^ excess n (r * n))
        ≤ 2 * (r * n) + 2 ^ excess n (r * n) =
      nearest-bound (r * n) (2 ^ excess n (r * n)) in
    elim (excess-bound n (r * n)) [
      | inl one ↦ omega (arith, within, near, one)
      | inr le ↦ omega (arith, within, near, le)
    ]

lt-two_pow : (n : ℕ) → n < 2 ^ n
lt-two_pow zero = omega arith
lt-two_pow (suc n) = omega (arith, lt-two_pow n, pow-succ' 2 n)

-- The bits that the product keeps are at most 53, since there are enough rounds to count the others.
product-enough : (r n : ℕ) → r < 2 ^ 53 → r * n < 2 ^ 53 * 2 ^ excess n (r * n)
product-enough r n h =
    let within : r * n ≤ 2 ^ 53 * n = grind arith in
    excess-enough n (r * n) (omega (arith, within, lt-two_pow n))
