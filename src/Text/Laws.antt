-- ===== src/Text/Laws.antt =====
-- Laws of the string methods.
use websockethub.Base.{ℕ, ◌≡◌, refl, ◌≢◌, true, some, [], ◌∷◌, ◌++◌, arith, length, All}
use websockethub.Text.{Text, text_eq, index_of}

pub text_eq_refl : (s : Text) → text_eq s s ≡ true
text_eq_refl [] = refl
text_eq_refl (a ∷ s) = ground (arith, text_eq_refl s)

pub text_eq→eq : (s t : Text) → text_eq s t ≡ true → s ≡ t
text_eq→eq [] [] h = refl
text_eq→eq [] (b ∷ t) h = cc
text_eq→eq (a ∷ s) [] h = cc
text_eq→eq (a ∷ s) (b ∷ t) h = ground (arith, text_eq→eq s t)

-- A text free of the unit `c`.
abbrev pub Lacks : ℕ → Text → Type 0
Lacks c = All (λ a. a ≢ c)

-- The first `c` of a text stands behind the part that lacks it.
pub index_of-append : (c : ℕ) (s t : Text) → Lacks c s → index_of c (s ++ c ∷ t) ≡ some (length s)
unfolding index_of
index_of-append c [] t h = ground arith
index_of-append c (a ∷ s) t (h, hs) = ground (arith, index_of-append c s t hs)
