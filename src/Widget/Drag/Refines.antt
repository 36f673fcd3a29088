-- ===== src/Widget/Drag/Refines.antt =====
-- A widget that can be dragged against one that cannot (static/chatroomwidget.js).
use websockethub.Base.{
  ℕ, ◌≡◌, refl, ◌∙◌, ap, sym, ◌⊎◌, inl, inr, Bool, true, false, Option, some, List, [], ◌∷◌, arith,
}
use mathlib.Core.Path.{subst}
use websockethub.Base.Int.{ℤ}
use websockethub.Text.{Text}
use websockethub.Host.{Host}
use websockethub.Url.{Config, Page}
use websockethub.Widget.State.{Widget}
use websockethub.Widget.Forms.{click_minifier}
use websockethub.Widget.Main
use websockethub.Widget.Drag.{
  Geometry, Clicked, Tab, offset_left, make_draggable, Event, widget, drags, presses, loads,
  align_right, click, widget_event, after_script, drag, step, run, start,
}
use websockethub.Widget.Drag.Loader.{script_event, press, Button}

-- The events of the widget itself.
abbrev pub widget_events : List Event → List Main.Event
widget_events [] = []
widget_events (widget e ∷ es) = e ∷ widget_events es
widget_events (drags x called ∷ es) = widget_events es
widget_events (presses ∷ es) = widget_events es
widget_events (loads part state ∷ es) = widget_events es

-- `short` is `all` without some of its clicks.
pub data WithoutClicks : (short all : List Main.Event) → Type 0 where
  nothing : WithoutClicks [] []
  same :
      {short all : List Main.Event} (e : Main.Event)
      → WithoutClicks short all
      → WithoutClicks (e ∷ short) (e ∷ all)
  skipped :
      {short all : List Main.Event}
      → WithoutClicks short all
      → WithoutClicks short (Main.click ∷ all)

module _ (host : Host) (g : Geometry) where
  align_right-widget : (n : ℕ) (d : Bool) (c : Clicked) → (align_right g n d c).widget ≡ c.widget
  align_right-widget n d c = ground arith

  -- A click reaches the old handler once, or not at all.
  click-widget :
      (ds : List Bool) (w : Widget) (left : Option ℤ)
      → ((click host g ds w left).widget ≡ w)
        ⊎ ((click host g ds w left).widget ≡ (click_minifier host w).1)
  unfolding click
  click-widget [] w left = inr refl
  click-widget (true ∷ ds) w left = inl refl
  click-widget (false ∷ ds) w left =
      let inner = click host g ds w (some (offset_left g w left)) in
      let same_widget = align_right-widget (g.outer_width w) false inner in
      elim (click-widget ds w (some (offset_left g w left))) [
        | inl e ↦ inl (same_widget ∙ e)
        | inr e ↦ inr (same_widget ∙ e)
      ]

  -- An event of the widget does what it does without the plugin, or is a click that does nothing.
  widget_event-widget :
      (e : Main.Event) (t : Tab)
      → ((widget_event host g e t).widget ≡ Main.step host t.widget e)
        ⊎ ((e ≡ Main.click) × ((widget_event host g e t).widget ≡ t.widget))
  unfolding widget_event Main.step
  widget_event-widget Main.click t = elim (click-widget t.wrappers t.widget t.left) [
    | inl e ↦ inr (refl, e)
    | inr e ↦ inl e
  ]
  widget_event-widget (Main.Event.submit_name txt) t = inl refl
  widget_event-widget (Main.Event.submit_message txt) t = inl refl
  widget_event-widget Main.opens t = inl refl
  widget_event-widget Main.fails t = inl refl
  widget_event-widget (Main.closes e) t = inl refl
  widget_event-widget (Main.receives txt) t = inl refl
  widget_event-widget (Main.second i) t = inl refl
  widget_event-widget Main.title_second t = inl refl
  widget_event-widget Main.hides t = inl refl
  widget_event-widget Main.shows t = inl refl
  widget_event-widget (Main.scrolls top) t = inl refl

  drag-widget : (x : ℤ) (called : List Bool) (t : Tab) → (drag x called t).widget ≡ t.widget
  unfolding drag
  drag-widget x called t = ground arith

  after_script-widget : (r : Bool × Button) (t : Tab) → (after_script r t).widget ≡ t.widget
  unfolding make_draggable
  after_script-widget (true, b) t = refl
  after_script-widget (false, b) t = refl

  -- The rest of a run, from a state with the same widget.
  Rest : List Event → Tab → Widget → Type 0
  Rest es t w =
      (short : List Main.Event) × WithoutClicks short (widget_events es)
      × ((run host g t es).widget ≡ Main.run host w short)

  run-Refines : (es : List Event) (t : Tab) (w : Widget) → t.widget ≡ w → Rest es t w
  unfolding Rest step
  run-Refines [] t w k = ([], nothing, k)
  run-Refines (widget e ∷ es) t w k = elim (widget_event-widget e t) [
    | inl s ↦
        let (short, p, q) =
          run-Refines es (widget_event host g e t) (Main.step host w e)
            (s ∙ ap (λ v. Main.step host v e) k) in
        (e ∷ short, same e p, q)
    | inr (c, s) ↦
        let (short, p, q) = run-Refines es (widget_event host g e t) w (s ∙ k) in
        (short, subst (λ a. WithoutClicks short (a ∷ widget_events es)) (sym c) (skipped p), q)
  ]
  run-Refines (drags x called ∷ es) t w k =
      run-Refines es (drag x called t) w (drag-widget x called t ∙ k)
  run-Refines (presses ∷ es) t w k = run-Refines es (record t { button = press t.button }) w k
  run-Refines (loads part state ∷ es) t w k =
      let r = script_event part state t.button in
      run-Refines es (after_script r t) w (after_script-widget r t ∙ k)

-- Whether the page has the plugin or not, whatever is dragged, pressed and loaded, the widget is
-- always as it would be after a run without all this: after the same events of the widget, in the
-- same order, without some of the clicks. What holds of all such runs holds of a draggable widget.
pub run-start-Refines :
    (host : Host) (g : Geometry) (plugin : Bool) (config : Option Config) (page : Page)
    (title : Text) (stored : Option Text) (es : List Event)
    → (short : List Main.Event) × WithoutClicks short (widget_events es)
      × ((run host g (start host plugin config page title stored) es).widget
          ≡ Main.run host (Main.start host config page title stored) short)
unfolding start Rest
run-start-Refines host g plugin config page title stored es =
    run-Refines host g es (start host plugin config page title stored)
      (Main.start host config page title stored) (ground arith)
