-- ===== src/Widget/Dom/Plain.antt =====
-- Parts of the widget of static/chatroomwidget.js that no rule of its style sheet hides.
use websockethub.Base.{◌≡◌, refl, ap, Bool, true, false, ◌&&◌, not, List, [], ◌∷◌, map, arith}
use websockethub.Text.{Text, text, text_eq}
use websockethub.Style.{
  Element, Tree, node, Forest, nil, cons, Screen, is_hidden, rendered, rendered_forest, elements,
  forest_elements,
}
use websockethub.Style.Sheet.{named, sheet}
use websockethub.Widget.State.{Entry, chat, log, Level, id, has_class}
use websockethub.Widget.Drag.Loader.{Label, make_draggable, loading_scripts, great_success}
use websockethub.Widget.Dom.{name_form, drag_control, entry_node, input, forest, leaf}
use websockethub.Widget.Dom.Display.{IsPoliteScreen, is_ordinary, inner-shown}

-- None of the elements that a rule may hide.
is_plain : Element → Bool
is_plain e =
    is_ordinary e
    && not (text_eq id e.id)
    && not (text_eq (named "config") e.id)
    && not (has_class (text "connMsg") e.classes)
    && not (has_class (named "advancedConfig") e.classes)

mutual
  unfolding is_plain

  pub all_plain : Tree → Bool
  all_plain (node e inner) = is_plain e && all_plain_forest inner

  pub all_plain_forest : Forest → Bool
  all_plain_forest nil = true
  all_plain_forest (cons t ts) = all_plain t && all_plain_forest ts

and_left : (a b : Bool) → (a && b) ≡ true → a ≡ true
and_left a b h = ground arith

and_right : (a b : Bool) → (a && b) ≡ true → b ≡ true
and_right a b h = ground arith

conditions :
    (a b c d e : Bool)
    → (a && not b && not c && not d && not e) ≡ true
    → (a ≡ true) × (b ≡ false) × (c ≡ false) × (d ≡ false) × (e ≡ false)
conditions a b c d e h = ground arith

is_plain-conditions :
    (e : Element)
    → is_plain e ≡ true
    → (is_ordinary e ≡ true)
      × (text_eq id e.id ≡ false)
      × (text_eq (named "config") e.id ≡ false)
      × (has_class (text "connMsg") e.classes ≡ false)
      × (has_class (named "advancedConfig") e.classes ≡ false)
unfolding is_plain
is_plain-conditions e h = conditions _ _ _ _ _ h

module _ (scr : Screen) (polite : IsPoliteScreen scr) where
  plain-shown :
      (e p : Element) (above : List Element)
      → text_eq id p.id ≡ false
      → is_plain e ≡ true
      → is_hidden scr sheet e (p ∷ above) ≡ false
  plain-shown e p above n h =
      let (o, a, b, c, d) = is_plain-conditions e h in inner-shown scr polite e p above o a n b c d

  mutual
    unfolding rendered elements all_plain

    pub rendered-plain :
        (t : Tree) (p : Element) (above : List Element)
        → text_eq id p.id ≡ false
        → all_plain t ≡ true
        → rendered scr sheet t (p ∷ above) ≡ elements t
    rendered-plain (node e inner) p above n h =
        let k = and_left (is_plain e) (all_plain_forest inner) h in
        rw (plain-shown e p above n k) (
          ap (e ∷◌) (
            rendered_forest-plain inner e (p ∷ above) (is_plain-conditions e k).1
              (and_right (is_plain e) (all_plain_forest inner) h)))

    pub rendered_forest-plain :
        (ts : Forest) (p : Element) (above : List Element)
        → text_eq id p.id ≡ false
        → all_plain_forest ts ≡ true
        → rendered_forest scr sheet ts (p ∷ above) ≡ forest_elements ts
    rendered_forest-plain nil p above n h = refl
    rendered_forest-plain (cons t ts) p above n h =
        rw
          (
            rendered-plain t p above n (and_left (all_plain t) (all_plain_forest ts) h),
            rendered_forest-plain ts p above n (and_right (all_plain t) (all_plain_forest ts) h),
          )
          refl

pub name_form-plain : (name : Text) (marked : Bool) → all_plain (name_form name marked) ≡ true
unfolding all_plain is_plain has_class
name_form-plain name true = refl
name_form-plain name false = refl

pub advanced-plain :
    (label : Label) → all_plain_forest (forest (leaf (drag_control label) ∷ [])) ≡ true
unfolding all_plain is_plain has_class
advanced-plain make_draggable = refl
advanced-plain loading_scripts = refl
advanced-plain great_success = refl

pub input-plain :
    (txt : Text) (marked : Bool)
    → all_plain_forest (forest (leaf (input (named "input") marked txt) ∷ [])) ≡ true
unfolding all_plain is_plain has_class
input-plain txt true = refl
input-plain txt false = refl

entry-plain : (e : Entry) → all_plain (entry_node e) ≡ true
unfolding all_plain is_plain has_class
entry-plain (chat name html true) = refl
entry-plain (chat name html false) = refl
entry-plain (log Level.info html) = refl
entry-plain (log Level.error html) = refl

pub entries-plain : (es : List Entry) → all_plain_forest (forest (map entry_node es)) ≡ true
unfolding all_plain
entries-plain [] = refl
entries-plain (e ∷ es) = rw (entry-plain e, entries-plain es) refl
