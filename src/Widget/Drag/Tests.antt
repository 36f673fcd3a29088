-- ===== src/Widget/Drag/Tests.antt =====
-- Runs of a widget that can be dragged (static/chatroomwidget.js), on concrete inputs.
use websockethub.Base.{
  ℕ, ◌≡◌, refl, ◌⊎◌, Bool, true, false, none, some, List, [], ◌∷◌, if◌then◌else◌,
}
use websockethub.Base.Int.{pos, ◌+ℤ◌, times}
use websockethub.Text.{text}
use websockethub.Tests.{browser, page}
use websockethub.Widget.State.{Widget, mini, cleanslate, has_class, ok}
use websockethub.Widget.Forms.{click_minifier}
use websockethub.Widget.Main
use websockethub.Widget.Drag.{
  Geometry, Tab, Event, widget, drags, presses, loads, click, step, run, start,
}
use websockethub.Widget.Drag.Loader.{first, second, fresh}
use websockethub.Widget.Drag.Edge.{undragged, shrinks, right_edge_of, click-left, step-right_edge}
use websockethub.Widget.Drag.Refines.{widget_events, WithoutClicks, run-start-Refines}
use websockethub.Widget.Drag.Once.{IsAt, run-start-IsAt}

abbrev width_of : Widget → ℕ
width_of w = if has_class mini w.classes then 100 else 300

abbrev geometry : Geometry
geometry = record { outer_width = width_of; free_left = λ w. pos 500 }

abbrev small : Widget
small = record (Main.initial (text "Blog") none) {
  attached = true;
  classes = cleanslate ∷ mini ∷ [];
  mesg_marked = true;
}

abbrev tab : Tab
tab = record { widget = small; left = none; wrappers = false ∷ []; button = fresh }

abbrev events : List Event
events =
    presses
    ∷ loads first (some (text "loading"))
    ∷ loads first none
    ∷ loads second (some (text "complete"))
    ∷ drags (pos 40) (true ∷ [])
    ∷ widget Main.click
    ∷ widget Main.click
    ∷ []

small-clicks : (click_minifier browser small).0 ≡ ok tt
unfolding click_minifier has_class
small-clicks = refl

click-left_example :
    ((click browser geometry (undragged 2) small none).widget ≡ (click_minifier browser small).1)
    × ((click browser geometry (undragged 2) small none).left
        ≡ some (pos 500 +ℤ times 2 (shrinks browser geometry small small-clicks)))
    × ((click browser geometry (undragged 2) small none).wrappers ≡ undragged 2)
click-left_example = click-left browser geometry small small-clicks 1 none

step-right_edge_example :
    ((step browser geometry tab (widget Main.click)).wrappers ≡ false ∷ [])
    × (((◌≡◌ {A = Bool} false true)
          × ((step browser geometry tab (widget Main.click)).widget ≡ small)
          × ((step browser geometry tab (widget Main.click)).left ≡ none))
        ⊎ ((◌≡◌ {A = Bool} false false)
            × ((step browser geometry tab (widget Main.click)).widget
                ≡ (click_minifier browser small).1)
            × (right_edge_of geometry (step browser geometry tab (widget Main.click))
                ≡ right_edge_of geometry tab)))
step-right_edge_example = step-right_edge browser geometry tab false refl small-clicks

run-start-Refines_example :
    (short : List Main.Event) × WithoutClicks short (widget_events events)
    × ((run browser geometry (start browser true none page (text "Blog") none) events).widget
        ≡ Main.run browser (Main.start browser none page (text "Blog") none) short)
run-start-Refines_example =
    run-start-Refines browser geometry true none page (text "Blog") none events

run-start-IsAt_example :
    IsAt 1 (run browser geometry (start browser true none page (text "Blog") none) events)
run-start-IsAt_example = run-start-IsAt browser geometry true none page (text "Blog") none events
