-- ===== src/Links/Scheme/Href.antt =====
-- What stands at the start of the addresses that `urlify` of static/chatroomwidget.js writes.
use websockethub.Base.{
  ltb, ℕ, ◌≡◌, refl, sym, ap, ◌∙◌, inl, inr, Bool, true, false, [], ◌∷◌, ◌++◌, map, all, All,
  Bool-cases, arith, append_assoc,
}
use websockethub.Text.{Text, text, fold, starts_with, is_lower}
use websockethub.Links.{scheme_rest, has_scheme, href_of}
use websockethub.Links.Scheme.{IsWebScheme, NoColon, IsLink}

abbrev pub HasWebScheme : Text → Type 0
HasWebScheme href = (t : Text) × (rest : Text) × IsWebScheme t × (href ≡ t ++ (text "://" ++ rest))

has_scheme-rest : (s : Text) → has_scheme s ≡ true → scheme_rest s ≡ true
unfolding has_scheme scheme_rest
has_scheme-rest [] h = h
has_scheme-rest (c ∷ s) h = ground arith

-- A dot before any colon: no scheme.
scheme_rest-DotFirst : (w rest : Text) → All NoColon w → scheme_rest (w ++ b'.' ∷ rest) ≡ false
unfolding scheme_rest starts_with fold
scheme_rest-DotFirst [] rest h = refl
scheme_rest-DotFirst (c ∷ w) rest (h, hs) = ground (arith, scheme_rest-DotFirst w rest hs)

abbrev is_symbol : ℕ → Bool
is_symbol c = ltb c b'A'

folded_symbol : (a c : ℕ) → is_symbol c ≡ true → fold a ≡ c → a ≡ c
unfolding fold
folded_symbol a c h e = ground arith

-- Symbols have no case.
folded_symbols : (s w : Text) → all is_symbol s ≡ true → map fold w ≡ s → w ≡ s
folded_symbols [] [] h e = refl
folded_symbols [] (a ∷ w) h e = absurd (cc)
folded_symbols (c ∷ s) [] h e = absurd (cc)
folded_symbols (c ∷ s) (a ∷ w) h e =
    rw (folded_symbol a c (ground arith) (cc), folded_symbols s w (ground arith) (cc)) refl

scheme_rest-letter :
    (a c : ℕ) (s : Text)
    → is_lower c ≡ true
    → fold a ≡ c
    → scheme_rest (a ∷ s) ≡ true
    → (a ≡ c) × (scheme_rest s ≡ true)
unfolding scheme_rest starts_with fold
scheme_rest-letter a c s l e h = ground arith

-- A scheme in small letters is the one that the expression names.
scheme_rest-fold :
    (t w rest : Text)
    → all is_lower t ≡ true
    → map fold w ≡ t ++ text "://"
    → scheme_rest (w ++ rest) ≡ true
    → w ≡ t ++ text "://"
scheme_rest-fold [] w rest l e h = folded_symbols (text "://") w refl e
scheme_rest-fold (c ∷ t) [] rest l e h = absurd (cc)
scheme_rest-fold (c ∷ t) (a ∷ w) rest l e h =
    let (k, i) = scheme_rest-letter a c (w ++ rest) (ground arith) (cc) h in
    rw (k, scheme_rest-fold t w rest (ground arith) (cc) i) refl

IsWebScheme-lower : (t : Text) → IsWebScheme t → all is_lower t ≡ true
IsWebScheme-lower t (inl e) = rw e refl
IsWebScheme-lower t (inr (inl e)) = rw e refl
IsWebScheme-lower t (inr (inr e)) = rw e refl

IsLink-has_scheme : (m : Text) → IsLink m → has_scheme m ≡ true → HasWebScheme m
IsLink-has_scheme m (inl (w, rest, t, e, f, h)) k =
    let small =
      scheme_rest-fold t w rest (IsWebScheme-lower t h) f
        (sym (ap scheme_rest e) ∙ has_scheme-rest m k) in
    (t, rest, h, e ∙ (ap (◌++ rest) small ∙ append_assoc t (text "://") rest))
IsLink-has_scheme m (inr (w, rest, e, h)) k =
    absurd (cc (scheme_rest-DotFirst w rest h, ap scheme_rest e, has_scheme-rest m k))

-- With or without a scheme of its own, a link leads to an address with one of the schemes.
pub IsLink-href_of : (m : Text) → IsLink m → HasWebScheme (href_of m)
unfolding href_of
IsLink-href_of m h = elim (Bool-cases (has_scheme m)) [
  | inl e ↦ rw e (IsLink-has_scheme m h e)
  | inr e ↦ rw e (text "http", m, inl refl, refl)
]
