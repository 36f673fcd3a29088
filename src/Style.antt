-- ===== src/Style.antt =====
-- Style sheets as far as static/chatroomwidget.js writes them: which elements a selector matches,
-- and which of several declarations of a property holds.
pub mod Sheet
pub mod Cascade
use websockethub.Base.{
  ℕ, ◌+◌, Bool, false, ◌&&◌, ◌||◌, not, Option, none, some, List, [], ◌∷◌, ◌++◌, ltb, ◌==◌,
  if◌then◌else◌, any, all,
}
use websockethub.Text.{Text, text, text_eq}
use websockethub.Widget.State.{has_class}

-- An element of the document without its children. The empty `id` is none; `content` is the text or
-- the HTML that stands in it, `value` the value of an input.
pub record Element : Type 0 where
  pub tag : Text
  pub id : Text
  pub classes : List Text
  pub attributes : List (Text × Text)
  pub content : Text
  pub value : Text

-- One condition of a selector.
pub data Simple : Type 0 where
  tag_is id_is class_is : Text → Simple
  attribute_is : Text → Text → Simple
  hover : Simple
  but_not : Simple → Simple

-- Conditions on one element, `s > c` and `s c`.
pub data Selector : Type 0 where
  only : List Simple → Selector
  child inside : Selector → List Simple → Selector

pub record Rule : Type 0 where
  pub selectors : List Selector
  pub declarations : List (Text × Text)

-- How specific a selector is: its conditions on the id, on classes and attributes, on the tag.
pub record Weight : Type 0 where
  pub ids : ℕ
  pub classes : ℕ
  pub tags : ℕ

abbrev pub add_weight : Weight → Weight → Weight
add_weight v w = record {
  ids = v.ids + w.ids;
  classes = v.classes + w.classes;
  tags = v.tags + w.tags;
}

abbrev pub no_weight : Weight
no_weight = record { ids = 0; classes = 0; tags = 0 }

unfoldable pub simple_weight : Simple → Weight
simple_weight (tag_is t) = record no_weight { tags = 1 }
simple_weight (id_is t) = record no_weight { ids = 1 }
simple_weight (class_is t) = record no_weight { classes = 1 }
simple_weight (attribute_is n v) = record no_weight { classes = 1 }
simple_weight hover = record no_weight { classes = 1 }
simple_weight (but_not s) = simple_weight s

unfoldable pub compound_weight : List Simple → Weight
unfolding simple_weight
compound_weight [] = no_weight
compound_weight (s ∷ ss) = add_weight (simple_weight s) (compound_weight ss)

unfoldable pub selector_weight : Selector → Weight
unfolding compound_weight
selector_weight (only c) = compound_weight c
selector_weight (child s c) = add_weight (selector_weight s) (compound_weight c)
selector_weight (inside s c) = add_weight (selector_weight s) (compound_weight c)

abbrev pub lighter : Weight → Weight → Bool
lighter v w =
    ltb v.ids w.ids
    || (v.ids == w.ids
        && (ltb v.classes w.classes || (v.classes == w.classes && ltb v.tags w.tags)))

-- A declaration for some element, and whether it is marked `!important`.
pub record Candidate : Type 0 where
  pub weight : Weight
  pub important : Bool
  pub value : Text

-- Whether a declaration gives way to one before it.
abbrev pub yields : Candidate → Candidate → Bool
yields c b =
    if (c.important && b.important) || (not c.important && not b.important)
    then lighter c.weight b.weight
    else b.important

-- What else decides how elements look: where the pointer is, and what other style sheets declare
-- for the property `display` of an element inside those that are given, the nearest first.

pub record Screen : Type 0 where
  pub hovers : Element → Bool
  pub others : Element → List Element → List Candidate

unfoldable pub satisfies : Screen → Element → Simple → Bool
unfolding has_class
satisfies scr e (tag_is t) = text_eq t e.tag
satisfies scr e (id_is t) = text_eq t e.id
satisfies scr e (class_is t) = has_class t e.classes
satisfies scr e (attribute_is n v) =
    any (λ (p : Text × Text). text_eq n p.0 && text_eq v p.1) e.attributes
satisfies scr e hover = scr.hovers e
satisfies scr e (but_not s) = not (satisfies scr e s)

abbrev pub some_ancestor : (Element → List Element → Bool) → List Element → Bool
some_ancestor f [] = false
some_ancestor f (a ∷ above) = f a above || some_ancestor f above

abbrev pub parent : (Element → List Element → Bool) → List Element → Bool
parent f [] = false
parent f (a ∷ above) = f a above

-- Whether a selector matches an element inside others.
unfoldable pub matches : Screen → Selector → Element → List Element → Bool
unfolding satisfies
matches scr (only c) e above = all (satisfies scr e) c
matches scr (child s c) e above = all (satisfies scr e) c && parent (matches scr s) above
matches scr (inside s c) e above = all (satisfies scr e) c && some_ancestor (matches scr s) above

-- The values that declarations give a property, from selectors that match. The script marks none as
-- important.
unfoldable pub declared : Text → Weight → List (Text × Text) → List Candidate
declared property w [] = []
declared property w ((name, v) ∷ ds) =
    if text_eq property name
    then record { weight = w; important = false; value = v } ∷ declared property w ds
    else declared property w ds

unfoldable pub selected :
    Screen → Text → List Selector → List (Text × Text) → Element → List Element → List Candidate
unfolding matches selector_weight declared
selected scr property [] ds e above = []
selected scr property (s ∷ ss) ds e above =
    if matches scr s e above
    then declared property (selector_weight s) ds ++ selected scr property ss ds e above
    else selected scr property ss ds e above

unfoldable pub candidates : Screen → Text → List Rule → Element → List Element → List Candidate
unfolding selected
candidates scr property [] e above = []
candidates scr property (r ∷ rs) e above =
    selected scr property r.selectors r.declarations e above ++ candidates scr property rs e above

-- An important one holds before others, then the most specific one, and of equal ones the last. The
-- sheets of the browser and of the user count like those of the page.
unfoldable pub choose : Option Candidate → List Candidate → Option Candidate
choose best [] = best
choose none (c ∷ cs) = choose (some c) cs
choose (some b) (c ∷ cs) = choose (some (if yields c b then b else c)) cs

abbrev pub hides : Option Candidate → Bool
hides none = false
hides (some c) = text_eq (text "none") c.value

-- `display: none`
unfoldable pub is_hidden : Screen → List Rule → Element → List Element → Bool
unfolding candidates choose
is_hidden scr rules e above =
    hides (choose none (scr.others e above ++ candidates scr (text "display") rules e above))

-- Elements with their children.
mutual
  pub data Tree : Type 0 where
    node : Element → Forest → Tree

  pub data Forest : Type 0 where
    nil : Forest
    cons : Tree → Forest → Forest

-- The elements that are rendered, in their order: an element that is hidden hides its children.
unfoldable mutual
  pub rendered : Screen → List Rule → Tree → List Element → List Element
  rendered scr rules (node e inner) above =
      let rest = rendered_forest scr rules inner (e ∷ above) in
      if is_hidden scr rules e above then [] else e ∷ rest

  pub rendered_forest : Screen → List Rule → Forest → List Element → List Element
  rendered_forest scr rules nil above = []
  rendered_forest scr rules (cons t ts) above =
      rendered scr rules t above ++ rendered_forest scr rules ts above

-- All of them, hidden or not.
unfoldable mutual
  pub elements : Tree → List Element
  elements (node e inner) = e ∷ forest_elements inner

  pub forest_elements : Forest → List Element
  forest_elements nil = []
  forest_elements (cons t ts) = elements t ++ forest_elements ts
