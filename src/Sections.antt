-- ===== src/Sections.antt =====
-- The sections of the website that can be collapsed (www/base.js).
pub mod Laws
pub mod Tests
use websockethub.Base.{ℕ, Bool, true, false, Option, none, some, List, [], ◌∷◌, ◌==◌, if◌then◌else◌}
use mathlib.Core.List.{foldl}
use websockethub.Text.{Text, text}
use websockethub.Widget.State.{has_class, add_class, remove_class}

-- An element with the class `collapsable-section`: its classes, the first heading inside it by its
-- number, if there is one, and whether the script listens to that heading for it.
pub record Section : Type 0 where
  pub classes : List Text
  pub heading : Option ℕ
  pub listens : Bool

pub record Document : Type 0 where
  pub sections : List Section
  pub body : List Text

-- The loop over the sections. A section without a heading ends the script with an error.
unfoldable pub install : List Section → Bool × List Section
install [] = (true, [])
install (s ∷ ss) = elim s.heading [
  | none ↦ (false, s ∷ ss)
  | some h ↦ (let (done, rest) = install ss in (done, record s { listens = true } ∷ rest))
]

unfoldable pub load : Document → Document
unfolding install add_class
load d =
    let (done, sections) = install d.sections in
    record { sections = sections; body = if done then add_class (text "js") d.body else d.body }

abbrev pub collapsed : Text
collapsed = text "collapsed"

-- `div.classList.toggle('collapsed')`
unfoldable pub toggle : Section → Section
unfolding has_class add_class remove_class
toggle s = record s {
  classes =
      if has_class collapsed s.classes
      then remove_class collapsed s.classes
      else add_class collapsed s.classes;
}

-- The listener of a section, for a click on the heading with the number `h`.
abbrev pub hears : ℕ → Section → Bool
hears h s = if s.listens then (elim s.heading [ none ↦ false | some k ↦ k == h ]) else false

unfoldable pub click_section : ℕ → Section → Section
unfolding toggle
click_section h s = if hears h s then toggle s else s

unfoldable pub click_all : ℕ → List Section → List Section
unfolding click_section
click_all h [] = []
click_all h (s ∷ ss) = click_section h s ∷ click_all h ss

unfoldable pub click : Document → ℕ → Document
unfolding click_all
click d h = record d { sections = click_all h d.sections }

abbrev pub run : Document → List ℕ → Document
run = foldl click
