-- ===== src/Regex/Laws.antt =====
-- What every match of an expression satisfies.
use websockethub.Base.{
  ℕ, zero, suc, ◌≡◌, refl, sym, ◌∙◌, Bool, true, false, List, [], ◌∷◌, ◌++◌, ltb, ◌==◌, ==_iff, all,
  ◌&&◌, length, All, All-append, arith, append_assoc, Bool-cases, inl, inr,
}
use websockethub.Text.{Text, fold}
use websockethub.Regex.{
  Regex, one, empty, seq, alt, star, upto, boundary, finish, Position, position, flat_map,
  keep_shorter, repeat, listed, run_one, when, is_end, is_boundary, run,
}

-- The units of `m`, put one by one onto what stands before the position.
abbrev pub push_all : Text → Text → Text
push_all [] b = b
push_all (c ∷ m) b = push_all m (c ∷ b)

pub push_all-append : (m n b : Text) → push_all (m ++ n) b ≡ push_all n (push_all m b)
push_all-append [] n b = refl
push_all-append (c ∷ m) n b = push_all-append m n (c ∷ b)

-- From `p` the matcher came to `q` over units that satisfy `P`.
pub record Reaches (P : ℕ → Type 0) (p q : Position) : Type 0 where
  pub consumed : Text
  pub rest_eq : p.rest ≡ consumed ++ q.rest
  pub before_eq : q.before ≡ push_all consumed p.before
  pub over : All P consumed

-- Every class of the expression holds only of units that satisfy `P`.
abbrev pub Over : (ℕ → Type 0) → Regex → Type 0
Over P (one cs) = (a : ℕ) → listed cs (fold a) ≡ true → P a
Over P (seq r s) = Over P r × Over P s
Over P (alt r s) = Over P r × Over P s
Over P (star r) = Over P r
Over P (upto n r) = Over P r
Over P _ = Unit

module _ (P : ℕ → Type 0) where
  Reaches-refl : (p : Position) → Reaches P p p
  Reaches-refl p = record { consumed = []; rest_eq = refl; before_eq = refl; over = tt }

  Reaches-trans : {p q r : Position} → Reaches P p q → Reaches P q r → Reaches P p r
  Reaches-trans {p} {q} {r} f g = record {
    consumed = f.consumed ++ g.consumed;
    rest_eq = f.rest_eq ∙ rw (g.rest_eq) (sym (append_assoc f.consumed g.consumed r.rest));
    before_eq = rw (push_all-append, g.before_eq, f.before_eq);
    over = All-append P f.consumed g.consumed f.over g.over;
  }

  flat_map-Reaches :
      (p : Position) (f : Position → List Position) (qs : List Position)
      → All (Reaches P p) qs
      → ((q : Position) → All (Reaches P q) (f q))
      → All (Reaches P p) (flat_map f qs)
  flat_map-Reaches p f [] h step = tt
  flat_map-Reaches p f (q ∷ qs) (h, hs) step =
      All-append (Reaches P p) (f q) (flat_map f qs) (lift (f q) (step q))
        (flat_map-Reaches p f qs hs step)
    where
      lift : (rs : List Position) → All (Reaches P q) rs → All (Reaches P p) rs
      lift [] _ = tt
      lift (r ∷ rs) (g, gs) = (Reaches-trans h g, lift rs gs)

  keep_shorter-Reaches :
      (p : Position) (n : ℕ) (qs : List Position)
      → All (Reaches P p) qs
      → All (Reaches P p) (keep_shorter n qs)
  unfolding keep_shorter
  keep_shorter-Reaches p n [] h = tt
  keep_shorter-Reaches p n (q ∷ qs) (h, hs) = elim (Bool-cases (ltb (length q.rest) n)) [
    | inl e ↦ rw e (h, keep_shorter-Reaches p n qs hs)
    | inr e ↦ rw e (keep_shorter-Reaches p n qs hs)
  ]

  repeat-Reaches :
      (n : ℕ) (step : Position → List Position)
      → ((q : Position) → All (Reaches P q) (step q))
      → (p : Position) → All (Reaches P p) (repeat n step p)
  unfolding repeat
  repeat-Reaches zero step h p = (Reaches-refl p, tt)
  repeat-Reaches (suc n) step h p =
      All-append (Reaches P p) _ (p ∷ [])
        (flat_map-Reaches p (repeat n step) (keep_shorter (length p.rest) (step p))
          (keep_shorter-Reaches p _ (step p) (h p)) (repeat-Reaches n step h))
        (Reaches-refl p, tt)

  run_one-Reaches :
      (cs b s : Text) → Over P (one cs) → All (Reaches P (position b s)) (run_one cs b s)
  unfolding run_one
  run_one-Reaches cs b [] h = tt
  run_one-Reaches cs b (a ∷ s) h = elim (Bool-cases (listed cs (fold a))) [
    | inl e ↦
        rw e
          (record { consumed = a ∷ []; rest_eq = refl; before_eq = refl; over = (h a e, tt) }, tt)
    | inr e ↦ rw e tt
  ]

  when-Reaches : (t : Bool) (p : Position) → All (Reaches P p) (when t p)
  when-Reaches true p = (Reaches-refl p, tt)
  when-Reaches false p = tt

  -- The matcher moves forward over the units of the expression's classes.
  pub run-Reaches : (r : Regex) → Over P r → (p : Position) → All (Reaches P p) (run r p)
  unfolding run
  run-Reaches (one cs) h p = run_one-Reaches cs p.before p.rest h
  run-Reaches empty h p = (Reaches-refl p, tt)
  run-Reaches (seq r s) (h, k) p =
      flat_map-Reaches p (run s) (run r p) (run-Reaches r h p) (run-Reaches s k)
  run-Reaches (alt r s) (h, k) p =
      All-append (Reaches P p) (run r p) (run s p) (run-Reaches r h p) (run-Reaches s k p)
  run-Reaches (star r) h p = repeat-Reaches _ (run r) (run-Reaches r h) p
  run-Reaches (upto n r) h p = repeat-Reaches n (run r) (run-Reaches r h) p
  run-Reaches boundary h p = when-Reaches (is_boundary p) p
  run-Reaches finish h p = when-Reaches (is_end p.rest) p

-- `Over`, as a test on the classes.
unfoldable pub covers : (ℕ → Bool) → Regex → Bool
covers q (one cs) = all q cs
covers q (seq r s) = covers q r && covers q s
covers q (alt r s) = covers q r && covers q s
covers q (star r) = covers q r
covers q (upto n r) = covers q r
covers q _ = true

listed-all : (q : ℕ → Bool) (cs : Text) (a : ℕ) → all q cs ≡ true → listed cs a ≡ true → q a ≡ true
unfolding listed
listed-all q [] a h k = absurd (cc)
listed-all q (c ∷ cs) a h k = elim (Bool-cases (a == c)) [
  | inl e ↦ rw ((==_iff a c).0 e) (ground arith)
  | inr e ↦ listed-all q cs a (ground arith) (ground arith)
]

pub covers-Over : (q : ℕ → Bool) (r : Regex) → covers q r ≡ true → Over (λ a. q (fold a) ≡ true) r
unfolding covers
covers-Over q (one cs) h = λ a k. listed-all q cs (fold a) h k
covers-Over q (seq r s) h = (covers-Over q r (ground arith), covers-Over q s (ground arith))
covers-Over q (alt r s) h = (covers-Over q r (ground arith), covers-Over q s (ground arith))
covers-Over q (star r) h = covers-Over q r h
covers-Over q (upto n r) h = covers-Over q r h
covers-Over q _ h = tt
