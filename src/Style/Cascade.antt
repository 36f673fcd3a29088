-- ===== src/Style/Cascade.antt =====
-- Which elements the rules of a sheet hide, where no other sheet hides them or is as specific.
use websockethub.Base.{
  ◌<◌, ◌≡◌, refl, ap, ◌∙◌, Bool, true, false, ◌||◌, Option, none, some, List, [], ◌∷◌, ◌++◌, any,
  All, All-append, append-nil, arith, Bool-cases, inl, inr,
}
use websockethub.Text.{Text, text, text_eq}
use websockethub.Style.{
  Element, Selector, Rule, Weight, Candidate, Screen, selector_weight, yields, matches, declared,
  selected, candidates, choose, hides, is_hidden,
}

abbrev display : Text
display = text "display"

-- A declaration that shows its element.
abbrev pub IsShowing : Candidate → Type 0
IsShowing c = text_eq (text "none") c.value ≡ false

-- What other sheets may declare: nothing with an id, nothing that hides, nothing important.
abbrev pub IsPolite : Candidate → Type 0
IsPolite c = (c.weight.ids ≡ 0) × IsShowing c × (c.important ≡ false)

abbrev IsHiding : Candidate → Type 0
IsHiding c = (0 < c.weight.ids) × (text_eq (text "none") c.value ≡ true) × (c.important ≡ false)

abbrev BestShows : Option Candidate → Type 0
BestShows none = Unit
BestShows (some b) = IsShowing b

choose-IsShowing :
    (best : Option Candidate) (cs : List Candidate)
    → BestShows best
    → All IsShowing cs
    → hides (choose best cs) ≡ false
unfolding choose
choose-IsShowing none [] b h = refl
choose-IsShowing (some c) [] b h = b
choose-IsShowing none (c ∷ cs) b (h, hs) = choose-IsShowing (some c) cs h hs
choose-IsShowing (some c) (d ∷ cs) b (h, hs) = elim (Bool-cases (yields d c)) [
  | inl e ↦ rw e (choose-IsShowing (some c) cs b hs)
  | inr e ↦ rw e (choose-IsShowing (some d) cs h hs)
]

choose-IsHiding :
    (b : Candidate) (cs : List Candidate)
    → IsHiding b
    → All IsHiding cs
    → hides (choose (some b) cs) ≡ true
unfolding choose
choose-IsHiding b [] h hs = h.1
choose-IsHiding b (c ∷ cs) h (k, ks) = elim (Bool-cases (yields c b)) [
  | inl e ↦ rw e (choose-IsHiding b cs h ks)
  | inr e ↦ rw e (choose-IsHiding c cs k ks)
]

abbrev BestIsPolite : Option Candidate → Type 0
BestIsPolite none = Unit
BestIsPolite (some b) = IsPolite b

choose-hiding :
    (best : Option Candidate) (cs ds : List Candidate) (d : Candidate)
    → BestIsPolite best
    → All IsPolite cs
    → IsHiding d
    → All IsHiding ds
    → hides (choose best (cs ++ d ∷ ds)) ≡ true
unfolding choose
choose-hiding none [] ds d b h k ks = choose-IsHiding d ds k ks
choose-hiding (some c) [] ds d b h k ks =
    let e : yields d c ≡ false = ground arith in rw (e, hides) (choose-IsHiding d ds k ks)
choose-hiding none (c ∷ cs) ds d b (h, hs) k ks = choose-hiding (some c) cs ds d h hs k ks
choose-hiding (some a) (c ∷ cs) ds d b (h, hs) k ks = elim (Bool-cases (yields c a)) [
  | inl e ↦ rw (e, hides) (choose-hiding (some a) cs ds d b hs k ks)
  | inr e ↦ rw (e, hides) (choose-hiding (some c) cs ds d h hs k ks)
]

All-IsPolite : (cs : List Candidate) → All IsPolite cs → All IsShowing cs
All-IsPolite [] h = tt
All-IsPolite (c ∷ cs) (h, hs) = (h.1, All-IsPolite cs hs)

-- The rules that say something of a property.
unfoldable pub concerns : Text → List (Text × Text) → Bool
concerns property ds = any (λ (d : Text × Text). text_eq property d.0) ds

abbrev pub relevant : Text → List Rule → List Rule
relevant property [] = []
relevant property (r ∷ rs) =
    let rest = relevant property rs in
    elim (concerns property r.declarations) [ true ↦ r ∷ rest | false ↦ rest ]

declared-none :
    (property : Text) (w : Weight) (ds : List (Text × Text))
    → concerns property ds ≡ false
    → declared property w ds ≡ []
unfolding declared concerns
declared-none property w [] h = refl
declared-none property w (d ∷ ds) h = ground (arith, declared-none property w ds)

abbrev pub hiding : List (Text × Text)
hiding = (text "display", text "none") ∷ []

abbrev is_cons : List Candidate → Bool
is_cons [] = false
is_cons (c ∷ cs) = true

is_cons-append : (cs ds : List Candidate) → is_cons (cs ++ ds) ≡ (is_cons cs || is_cons ds)
is_cons-append [] ds = refl
is_cons-append (c ∷ cs) ds = refl

module _ (scr : Screen) (e : Element) (above : List Element) where
  selected-none :
      (property : Text) (ss : List Selector) (ds : List (Text × Text))
      → concerns property ds ≡ false
      → selected scr property ss ds e above ≡ []
  unfolding selected
  selected-none property [] ds h = refl
  selected-none property (s ∷ ss) ds h =
      ground
        (arith, declared-none property (selector_weight s) ds h, selected-none property ss ds h)

  candidates-relevant :
      (property : Text) (rs : List Rule)
      → candidates scr property rs e above ≡ candidates scr property (relevant property rs) e above
  unfolding candidates
  candidates-relevant property [] = refl
  candidates-relevant property (r ∷ rs) = elim (Bool-cases (concerns property r.declarations)) [
    | inl c ↦
        rw (c, relevant)
          (ap (selected scr property r.selectors r.declarations e above ++◌)
            (candidates-relevant property rs))
    | inr c ↦
        rw (c, relevant, selected-none property r.selectors r.declarations c)
          (candidates-relevant property rs)
  ]

  -- A rule that only hides, by selectors with an id.
  abbrev pub HidesOnly : Rule → Type 0
  HidesOnly r = (r.declarations ≡ hiding) × All (λ s. 0 < (selector_weight s).ids) r.selectors

  abbrev pub is_matched : List Selector → Bool
  is_matched ss = any (λ s. matches scr s e above) ss

  abbrev pub any_matched : List Rule → Bool
  any_matched rs = any (λ (r : Rule). is_matched r.selectors) rs

  selected-hiding :
      (ss : List Selector)
      → All (λ s. 0 < (selector_weight s).ids) ss
      → All IsHiding (selected scr display ss hiding e above)
        × (is_cons (selected scr display ss hiding e above) ≡ is_matched ss)
  unfolding selected declared
  selected-hiding [] h = (tt, refl)
  selected-hiding (s ∷ ss) (h, hs) = elim (Bool-cases (matches scr s e above)) [
    | inl y ↦ rw y (((h, refl, refl), (selected-hiding ss hs).0), refl)
    | inr n ↦ rw n (selected-hiding ss hs)
  ]

  candidates-HidesOnly :
      (rs : List Rule)
      → All HidesOnly rs
      → All IsHiding (candidates scr display rs e above)
        × (is_cons (candidates scr display rs e above) ≡ any_matched rs)
  unfolding candidates
  candidates-HidesOnly [] h = (tt, refl)
  candidates-HidesOnly (r ∷ rs) ((d, h), hs) =
      let (k, m) = selected-hiding r.selectors h in
      let (ks, ms) = candidates-HidesOnly rs hs in
      let first = selected scr display r.selectors hiding e above in
      let rest = candidates scr display rs e above in
      rw d (All-append IsHiding first rest k ks, is_cons-append first rest ∙ rw (m, ms) refl)

  hides-polite :
      (os cs : List Candidate)
      → All IsPolite os
      → All IsHiding cs
      → hides (choose none (os ++ cs)) ≡ is_cons cs
  hides-polite os [] h k = rw (append-nil os) (choose-IsShowing none os tt (All-IsPolite os h))
  hides-polite os (c ∷ cs) h (k, ks) = choose-hiding none os cs c tt h k ks

  selected-unmatched :
      (property : Text) (ss : List Selector) (ds : List (Text × Text))
      → is_matched ss ≡ false
      → selected scr property ss ds e above ≡ []
  unfolding selected
  selected-unmatched property [] ds h = refl
  selected-unmatched property (s ∷ ss) ds h = ground (arith, selected-unmatched property ss ds)

  -- Where some rules of a sheet say whether elements are displayed, the first does not match the
  -- element, and the others only hide, it is hidden exactly if one of these matches.
  pub is_hidden-any_matched :
      (rules : List Rule) (r : Rule) (rs : List Rule)
      → All IsPolite (scr.others e above)
      → relevant display rules ≡ r ∷ rs
      → is_matched r.selectors ≡ false
      → All HidesOnly rs
      → is_hidden scr rules e above ≡ any_matched rs
  unfolding is_hidden
  is_hidden-any_matched rules r rs o k n h =
      let (hs, m) = candidates-HidesOnly rs h in
      let none_first = selected-unmatched display r.selectors r.declarations n in
      let same : candidates scr display rules e above ≡ candidates scr display rs e above =
        candidates-relevant display rules ∙ rw (k, candidates, none_first) refl in
      rw same (hides-polite (scr.others e above) (candidates scr display rs e above) o hs ∙ m)

  -- An element that no rule hides.
  pub is_hidden-shown :
      (rules rs : List Rule)
      → All IsPolite (scr.others e above)
      → relevant display rules ≡ rs
      → All IsShowing (candidates scr display rs e above)
      → is_hidden scr rules e above ≡ false
  unfolding is_hidden
  is_hidden-shown rules rs o k h =
      rw (candidates-relevant display rules, k)
        (choose-IsShowing none (scr.others e above ++ candidates scr display rs e above) tt (
          All-append IsShowing (scr.others e above) (candidates scr display rs e above)
            (All-IsPolite (scr.others e above) o) h))
