-- ===== src/Widget/Dom/Tests.antt =====
-- What is rendered of concrete widgets (static/chatroomwidget.js).
use websockethub.Base.{◌≡◌, refl, true, false, none, [], ◌∷◌, arith, map, if◌then◌else◌}
use websockethub.Text.{text}
use websockethub.Style.{Element, Candidate, Screen, rendered, is_hidden}
use websockethub.Style.Sheet.{sheet, named}
use websockethub.Tests.{browser, page}
use websockethub.Widget.State.{Widget, id, has_class, connected, mini, config_mode}
use websockethub.Widget.Main.{click, opens, run, start, initial}
use websockethub.Widget.Drag.Loader.{make_draggable}
use websockethub.Widget.Dom.{widget_node}
use websockethub.Widget.Dom.Display.{IsPoliteScreen}
use websockethub.Widget.Dom.Shown.{view, view_for, rendered_widget, rendered-widget_node}
use websockethub.Widget.Dom.Newcomer.{rendered-run}

-- A page with the reset of styles, which makes some kinds of elements blocks.
abbrev block : Candidate
block = record {
  weight = record { ids = 0; classes = 1; tags = 1 };
  important = false;
  value = text "block";
}

abbrev screen : Screen
screen = record {
  hovers = λ e. false;
  others = λ e above.
      if has_class e.tag (text "div" ∷ text "form" ∷ text "p" ∷ []) then block ∷ [] else [];
}

screen-IsPolite : IsPoliteScreen screen
screen-IsPolite e above h = ground arith

-- A large widget with its configuration open.
abbrev open_widget : Widget
open_widget = record (initial (text "Blog") none) {
  attached = true;
  classes = config_mode ∷ [];
  conn_state = connected;
}

rendered-widget_node_example :
    rendered_widget screen open_widget make_draggable ≡ view open_widget make_draggable
rendered-widget_node_example =
    rendered-widget_node screen screen-IsPolite open_widget make_draggable

-- What is rendered of a small connected widget, by the first ids.
newcomer_test :
    map
      (λ (e : Element). e.id)
      (rendered screen sheet
        (widget_node (record open_widget { classes = mini ∷ config_mode ∷ [] }) make_draggable)
        [])
    ≡ id ∷ named "messages" ∷ [] ∷ []
unfolding rendered is_hidden
newcomer_test = refl

rendered-run_example :
    let here = run browser (start browser none page (text "Blog") none) (opens ∷ click ∷ []) in
    rendered_widget screen here make_draggable
    ≡ (if here.attached then view_for true here make_draggable else [])
rendered-run_example =
    rendered-run screen screen-IsPolite browser none page (text "Blog") none (opens ∷ click ∷ [])
      make_draggable
