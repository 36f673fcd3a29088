-- ===== src/Sections/Tests.antt =====
-- The website's sections (www/base.js) on a concrete page.
use mathlib.Core.Bool.{xor, false}
use websockethub.Base.{◌≡◌, refl, some, [], ◌∷◌, get_elem?}
use websockethub.Widget.State.{has_class}
use websockethub.Sections.{Section, Document, collapsed, load, run}
use websockethub.Sections.Laws.{odd_count, load-collapsed}

abbrev site_sections : Document
site_sections = record {
  sections =
      record { classes = collapsed ∷ []; heading = some 4; listens = false }
      ∷ record { classes = []; heading = some 7; listens = false }
      ∷ [];
  body = [];
}

load-collapsed_example :
    (t : Section) × (get_elem? (run (load site_sections) (4 ∷ 7 ∷ 4 ∷ 4 ∷ [])).sections 0 ≡ some t)
    × (has_class collapsed t.classes
        ≡ xor (odd_count 4 (4 ∷ 7 ∷ 4 ∷ 4 ∷ [])) (has_class collapsed (collapsed ∷ [])))
load-collapsed_example =
    load-collapsed (4 ∷ 7 ∷ 4 ∷ 4 ∷ []) site_sections 0 4
      (record { classes = collapsed ∷ []; heading = some 4; listens = false })
      ((4, refl), ((7, refl), tt)) refl refl
