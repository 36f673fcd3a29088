-- ===== src/Widget/Drag/Loader.antt =====
-- `loadJS` of static/chatroomwidget.js, and the button that loads two scripts with it, one after
-- the other.
use websockethub.Base.{
  Bool, true, false, ◌||◌, ◌&&◌, not, Option, none, some, [], ◌∷◌, if◌then◌else◌,
}
use websockethub.Text.{Text, text, starts_with}

-- Whether a text stands somewhere in another.
unfoldable pub contains : Text → Text → Bool
unfolding starts_with
contains p [] = starts_with p []
contains p (c ∷ s) = starts_with p (c ∷ s) || contains p s

-- `!state || /loaded|complete/.test(state)`
unfoldable pub is_ready : Option Text → Bool
unfolding contains
is_ready none = true
is_ready (some []) = true
is_ready (some (c ∷ s)) = contains (text "loaded") (c ∷ s) || contains (text "complete") (c ∷ s)

-- One call of `loadJS`, by the property `done` of its callback: the new value, and whether the
-- callback is run.
unfoldable pub fire : Option Text → Bool → Bool × Bool
unfolding is_ready
fire state done = if not done && is_ready state then (true, true) else (done, false)

-- The two scripts, jQuery and jQuery UI.
pub data Part : Type 0 where
  first second : Part

-- How the button reads, and whether each script has been asked for; if so, `done` of its callback.
pub data Label : Type 0 where
  make_draggable loading_scripts great_success : Label

pub record Button : Type 0 where
  pub disabled : Bool
  pub label : Label
  pub first_done : Option Bool
  pub second_done : Option Bool

unfoldable pub fresh : Button
fresh = record { disabled = false; label = make_draggable; first_done = none; second_done = none }

-- A click on the button, which a browser passes on only while it is enabled.
unfoldable pub press : Button → Button
press b =
    if b.disabled
    then b
    else record b { disabled = true; label = loading_scripts; first_done = some false }

-- The callback of the first script asks for the second one, with a new callback.
abbrev pub first_fired : Bool × Bool → Button → Button
first_fired (done, true) b = record b { first_done = some done; second_done = some false }
first_fired (done, false) b = record b { first_done = some done }

-- The callback of the second script makes the node draggable, and replaces the button.
abbrev pub second_fired : Bool × Bool → Button → Bool × Button
second_fired (done, true) b = (true, record b { second_done = some done; label = great_success })
second_fired (done, false) b = (false, record b { second_done = some done })

-- A script element that has been asked for fires an event. Whether the node is made draggable.
unfoldable pub script_event : Part → Option Text → Button → Bool × Button
unfolding fire
script_event first state b = elim b.first_done [
  | none ↦ (false, b)
  | some done ↦ (false, first_fired (fire state done) b)
]
script_event second state b = elim b.second_done [
  | none ↦ (false, b)
  | some done ↦ second_fired (fire state done) b
]
