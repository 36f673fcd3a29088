-- ===== src/Widget/Drag.antt =====
-- Dragging the widget of static/chatroomwidget.js with jQuery UI: `makeDraggable`,
-- `tryMakeDraggable`, the button of `createConfigScreen` and `loadJS`.
pub mod Loader
pub mod Edge
pub mod Refines
pub mod Once
pub mod Tests
use websockethub.Base.{ℕ, Bool, true, false, ◌||◌, Option, none, some, List, [], ◌∷◌, if◌then◌else◌}
use mathlib.Core.List.{foldl}
use websockethub.Base.Int.{ℤ, pos, ◌+ℤ◌, ◌-ℤ◌}
use websockethub.Text.{Text}
use websockethub.Host.{Host}
use websockethub.Url.{Config, Page}
use websockethub.Widget.State.{Widget, Outcome, ok, thrown}
use websockethub.Widget.Main
use websockethub.Widget.Forms.{click_minifier}
use Loader.{Button, Part, press, script_event}

-- What jQuery reads of the node: its outer width, and its left offset as long as it has no
-- position of its own.
pub record Geometry : Type 0 where
  pub outer_width : Widget → ℕ
  pub free_left : Widget → ℤ

-- The widget, and what dragging adds to it: the left offset that was set, the variable `dragged` of
-- each function that `makeDraggable` has put around `onMinifierClicked`, the newest first, and the
-- button.
pub record Tab : Type 0 where
  pub widget : Widget
  pub left : Option ℤ
  pub wrappers : List Bool
  pub button : Button

-- `$(node).offset().left`
abbrev pub offset_left : Geometry → Widget → Option ℤ → ℤ
offset_left g w none = g.free_left w
offset_left g w (some x) = x

-- A click, its outcome, the widget and the left offset after it, and the variables `dragged`.
pub record Clicked : Type 0 where
  pub outcome : Outcome (Unit {0})
  pub widget : Widget
  pub left : Option ℤ
  pub wrappers : List Bool

-- `$(node).offset({left: newOffset.left + oldWidth - newWidth})`, unless the old handler threw.
abbrev pub align_right : Geometry → ℕ → Bool → Clicked → Clicked
align_right g old_width dragged c = elim c.outcome [
  | ok _ ↦ record c {
    left = some (offset_left g c.widget c.left +ℤ pos old_width -ℤ pos (g.outer_width c.widget));
    wrappers = dragged ∷ c.wrappers;
  }
  | thrown _ ↦ record c { wrappers = dragged ∷ c.wrappers }
]

-- `onMinifierClicked`, from the newest function inwards.
unfoldable pub click : Host → Geometry → List Bool → Widget → Option ℤ → Clicked
unfolding click_minifier
click host g [] w left = record {
  outcome = (click_minifier host w).0;
  widget = (click_minifier host w).1;
  left = left;
  wrappers = [];
}
click host g (true ∷ ds) w left = record {
  outcome = ok tt;
  widget = w;
  left = left;
  wrappers = false ∷ ds;
}
click host g (false ∷ ds) w left =
    align_right g (g.outer_width w) false (click host g ds w (some (offset_left g w left)))

-- `makeDraggable`
unfoldable pub make_draggable : Tab → Tab
make_draggable t = record t { wrappers = false ∷ t.wrappers }

-- `dragged = true`, by each of the `drag` callbacks that the plugin calls.
unfoldable pub mark_dragged : List Bool → List Bool → List Bool
mark_dragged [] ds = ds
mark_dragged (c ∷ cs) [] = []
mark_dragged (c ∷ cs) (d ∷ ds) = (c || d) ∷ mark_dragged cs ds

-- The plugin leaves the node at some offset. Which of the callbacks it calls, where it was set up
-- more than once, is up to it. Without it there are no drags.
unfoldable pub drag : ℤ → List Bool → Tab → Tab
unfolding mark_dragged
drag x called t = elim t.wrappers [
  | [] ↦ t
  | d ∷ ds ↦ record t { left = some x; wrappers = mark_dragged called (d ∷ ds) }
]

-- `tryMakeDraggable`, where the page has jQuery with the plugin or not.
unfoldable pub try_make_draggable : Bool → Tab → Tab
unfolding make_draggable
try_make_draggable plugin t = if plugin then make_draggable t else t

pub data Event : Type 0 where
  widget : Main.Event → Event
  drags : ℤ → List Bool → Event
  presses : Event
  -- a script element has fired, in the given `readyState`
  loads : Part → Option Text → Event

abbrev pub clicked : Clicked → Tab → Tab
clicked c t = record t { widget = c.widget; left = c.left; wrappers = c.wrappers }

-- Every event of the widget but the click is as before.
unfoldable pub widget_event : Host → Geometry → Main.Event → Tab → Tab
unfolding click
widget_event host g Main.click t = clicked (click host g t.wrappers t.widget t.left) t
widget_event host g e t = record t { widget = Main.step host t.widget e }

-- What a script does when it has been loaded is the button's affair; the last one makes the node
-- draggable.
abbrev pub after_script : Bool × Button → Tab → Tab
after_script (true, b) t = make_draggable (record t { button = b })
after_script (false, b) t = record t { button = b }

unfoldable pub step : Host → Geometry → Tab → Event → Tab
unfolding widget_event drag press script_event make_draggable
step host g t (widget e) = widget_event host g e t
step host g t (drags x called) = drag x called t
step host g t presses = record t { button = press t.button }
step host g t (loads part state) = after_script (script_event part state t.button) t

abbrev pub run : Host → Geometry → Tab → List Event → Tab
run host g = foldl (step host g)

-- The widget on a page that has jQuery with the plugin or not.
unfoldable pub start : Host → Bool → Option Config → Page → Text → Option Text → Tab
unfolding try_make_draggable Loader.fresh
start host plugin config page title stored = try_make_draggable plugin (record {
  widget = Main.start host config page title stored;
  left = none;
  wrappers = [];
  button = Loader.fresh;
})
