-- ===== src/Sections/Laws.antt =====
-- Which sections of the website are collapsed (www/base.js).
use websockethub.Base.{
  ℕ, All, ◌==◌, zero, suc, ◌≡◌, refl, ◌∙◌, ap, Bool, true, false, not, Option, some, List, [], ◌∷◌,
  get_elem?, Bool-cases, inl, inr, if◌then◌else◌,
}
use mathlib.Core.Bool.{xor}
use mathlib.Core.Option.{some-injective}
use websockethub.Widget.State.{has_class, add_class}
use websockethub.Widget.Classes.{has_class-remove_self, has_class-add_self}
use websockethub.Sections.{
  Section, Document, toggle, collapsed, hears, click_section, click_all, click, run, load, install,
}

-- Whether a section has heard an odd number of the clicks.
abbrev pub odd_clicks : List ℕ → Section → Bool
odd_clicks [] s = false
odd_clicks (h ∷ hs) s = if hears h s then not (odd_clicks hs s) else odd_clicks hs s

has_class-toggle :
    (s : Section) → has_class collapsed (toggle s).classes ≡ not (has_class collapsed s.classes)
unfolding toggle
has_class-toggle s = elim (Bool-cases (has_class collapsed s.classes)) [
  | inl y ↦ rw y (has_class-remove_self collapsed s.classes)
  | inr n ↦ rw n (rw (n, add_class) at (has_class-add_self collapsed s.classes))
]

get_elem?-click_all :
    (h : ℕ) (ss : List Section) (i : ℕ) {s : Section}
    → get_elem? ss i ≡ some s
    → get_elem? (click_all h ss) i ≡ some (click_section h s)
unfolding click_all
get_elem?-click_all h [] i e = cc
get_elem?-click_all h (t ∷ ss) zero e = ap (λ x. some (click_section h x)) (some-injective _ _ e)
get_elem?-click_all h (t ∷ ss) (suc i) e = get_elem?-click_all h ss i e

odd_clicks-toggle : (hs : List ℕ) (s : Section) → odd_clicks hs (toggle s) ≡ odd_clicks hs s
unfolding toggle
odd_clicks-toggle [] s = refl
odd_clicks-toggle (h ∷ hs) s = ap (λ b. if hears h s then not b else b) (odd_clicks-toggle hs s)

xor-not : (a b : Bool) → xor a (not b) ≡ xor (not a) b
unfolding xor
xor-not true true = refl
xor-not true false = refl
xor-not false true = refl
xor-not false false = refl

false-xor : (b : Bool) → b ≡ xor false b
unfolding xor
false-xor true = refl
false-xor false = refl

-- One click on a section, counted before the others.
click_section-xor :
    (hs : List ℕ) (h : ℕ) (s : Section)
    → xor (odd_clicks hs (click_section h s)) (has_class collapsed (click_section h s).classes)
      ≡ xor (odd_clicks (h ∷ hs) s) (has_class collapsed s.classes)
unfolding click_section
click_section-xor hs h s = elim (Bool-cases (hears h s)) [
  | inl y ↦ rw y (
      rw (odd_clicks-toggle hs s, has_class-toggle s)
        (xor-not (odd_clicks hs s) (has_class collapsed s.classes)))
  | inr n ↦ rw n refl
]

-- A section changes between collapsed and not with each click that it hears.
run-collapsed :
    (hs : List ℕ) (d : Document) (i : ℕ) (s : Section)
    → get_elem? d.sections i ≡ some s
    → (t : Section) × (get_elem? (run d hs).sections i ≡ some t)
      × (has_class collapsed t.classes ≡ xor (odd_clicks hs s) (has_class collapsed s.classes))
unfolding click
run-collapsed [] d i s e = (s, e, false-xor (has_class collapsed s.classes))
run-collapsed (h ∷ hs) d i s e =
    let (t, f, c) =
      run-collapsed hs (click d h) i (click_section h s) (get_elem?-click_all h d.sections i e) in
    (t, f, c ∙ click_section-xor hs h s)

-- Whether a heading is clicked an odd number of times.
abbrev pub odd_count : ℕ → List ℕ → Bool
odd_count k [] = false
odd_count k (h ∷ hs) = if k == h then not (odd_count k hs) else odd_count k hs

odd_clicks-heard :
    (hs : List ℕ) (h k : ℕ) (s : Section)
    → s.heading ≡ some k
    → s.listens ≡ true
    → odd_clicks (h ∷ hs) s ≡ (if k == h then not (odd_clicks hs s) else odd_clicks hs s)
odd_clicks-heard hs h k s e l =
    let heard : hears h s ≡ (k == h) = rw (l, e) refl in
    ap (λ b. if b then not (odd_clicks hs s) else odd_clicks hs s) heard

odd_clicks-listens :
    (hs : List ℕ) (k : ℕ) (s : Section)
    → s.heading ≡ some k
    → odd_clicks hs (record s { listens = true }) ≡ odd_count k hs
odd_clicks-listens [] k s e = refl
odd_clicks-listens (h ∷ hs) k s e =
    odd_clicks-heard hs h k (record s { listens = true }) e refl
    ∙ ap (λ b. if k == h then not b else b) (odd_clicks-listens hs k s e)

abbrev pub HasHeading : Section → Type 0
HasHeading s = (k : ℕ) × (s.heading ≡ some k)

listening : Section → Option Section
listening x = some (record x { listens = true })

get_elem?-install :
    (ss : List Section) (i : ℕ) {s : Section}
    → All HasHeading ss
    → get_elem? ss i ≡ some s
    → get_elem? (install ss).1 i ≡ some (record s { listens = true })
unfolding install listening
get_elem?-install [] i h e = cc
get_elem?-install (t ∷ ss) zero ((k, f), h) e =
    rw (f, install) (ap listening (some-injective _ _ e))
get_elem?-install (t ∷ ss) (suc i) ((k, f), h) e = rw (f, install) (get_elem?-install ss i h e)

-- On a page where every section has a heading: whatever headings are clicked after the script was
-- loaded, in whatever order, a section has changed between collapsed and not exactly if the heading
-- that is the first inside it was clicked an odd number of times.
pub load-collapsed :
    (hs : List ℕ) (d : Document) (i k : ℕ) (s : Section)
    → All HasHeading d.sections
    → get_elem? d.sections i ≡ some s
    → s.heading ≡ some k
    → (t : Section) × (get_elem? (run (load d) hs).sections i ≡ some t)
      × (has_class collapsed t.classes ≡ xor (odd_count k hs) (has_class collapsed s.classes))
unfolding load
load-collapsed hs d i k s h e f =
    let (t, at, c) =
      run-collapsed hs (load d) i (record s { listens = true })
        (get_elem?-install d.sections i h e) in
    (t, at, c ∙ ap (λ b. xor b (has_class collapsed s.classes)) (odd_clicks-listens hs k s f))
