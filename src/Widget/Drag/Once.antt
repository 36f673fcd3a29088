-- ===== src/Widget/Drag/Once.antt =====
-- What is run once: the callback of `loadJS`, and `makeDraggable` by the button
-- (static/chatroomwidget.js).
use websockethub.Base.{
  ℕ, suc, ◌+◌, ◌≡◌, refl, ◌∙◌, ap, sym, Bool, true, false, Option, none, some, List, [], ◌∷◌, arith,
  length, any, if◌then◌else◌, Bool-cases, inl, inr,
}
use mathlib.Core.Path.{subst}
use websockethub.Base.Int.{ℤ}
use websockethub.Text.{Text}
use websockethub.Host.{Host}
use websockethub.Url.{Config, Page}
use websockethub.Widget.State.{Widget}
use websockethub.Widget.Main
use websockethub.Widget.Drag.{
  Geometry, Tab, Event, widget, drags, presses, loads, click, widget_event, after_script, drag,
  mark_dragged, make_draggable, offset_left, step, run, start,
}
use websockethub.Widget.Drag.Loader
use websockethub.Widget.Drag.Loader.{
  Button, Part, first, second, is_ready, fire, fresh, press, script_event, loading_scripts,
  great_success,
}

-- How often the callback is run while the script's element fires events in these states.
pub callbacks : Bool → List (Option Text) → ℕ
callbacks done [] = 0
callbacks done (state ∷ states) =
    let (next, runs) = fire state done in (if runs then 1 else 0) + callbacks next states

callbacks-done : (states : List (Option Text)) → callbacks true states ≡ 0
unfolding callbacks fire
callbacks-done [] = refl
callbacks-done (state ∷ states) = ground (arith, callbacks-done states)

-- However many events a script's element fires, and in whatever order its states come, the callback
-- of `loadJS` is run once if it is ready in one of them, and never otherwise.
callbacks-any :
    (states : List (Option Text)) → callbacks false states ≡ (if any is_ready states then 1 else 0)
unfolding callbacks fire
callbacks-any [] = refl
callbacks-any (state ∷ states) = elim (Bool-cases (is_ready state)) [
  | inl r ↦ rw r (ground (arith, callbacks-done states))
  | inr n ↦ rw n (ground (arith, callbacks-any states))
]

-- The stages of the button.
pub data Stage : Type 0 where
  idle loads_first loads_second finished : Stage

abbrev pub button_of : Stage → Button
button_of idle = record {
  disabled = false;
  label = Loader.make_draggable;
  first_done = none;
  second_done = none;
}
button_of loads_first = record {
  disabled = true;
  label = loading_scripts;
  first_done = some false;
  second_done = none;
}
button_of loads_second = record {
  disabled = true;
  label = loading_scripts;
  first_done = some true;
  second_done = some false;
}
button_of finished = record {
  disabled = true;
  label = great_success;
  first_done = some true;
  second_done = some true;
}

abbrev pub made : Stage → ℕ
made finished = 1
made _ = 0

-- The button is at a stage, and the node was made draggable so many times.
pub record IsAt (base : ℕ) (t : Tab) : Type 0 where
  pub stage : Stage
  pub button : t.button ≡ button_of stage
  pub wrappers : length t.wrappers ≡ base + made stage

press-advances :
    (s : Stage) → (s' : Stage) × (press (button_of s) ≡ button_of s') × (made s ≡ made s')
unfolding press
press-advances idle = (loads_first, refl, refl)
press-advances loads_first = (loads_first, refl, refl)
press-advances loads_second = (loads_second, refl, refl)
press-advances finished = (finished, refl, refl)

-- The next stage, and whether the node is made draggable on the way to it.
script-advances :
    (s : Stage) (part : Part) (state : Option Text)
    → (s' : Stage) × (b : Bool) × (script_event part state (button_of s) ≡ (b, button_of s'))
      × (made s' ≡ made s + (if b then 1 else 0))
unfolding script_event
script-advances idle first state = (idle, false, refl, refl)
script-advances idle second state = (idle, false, refl, refl)
script-advances loads_first first state = elim (Bool-cases (is_ready state)) [
  | inl r ↦ (loads_second, false, rw (r, fire) refl, refl)
  | inr n ↦ (loads_first, false, rw (n, fire) refl, refl)
]
script-advances loads_first second state = (loads_first, false, refl, refl)
script-advances loads_second first state = (loads_second, false, refl, refl)
script-advances loads_second second state = elim (Bool-cases (is_ready state)) [
  | inl r ↦ (finished, true, rw (r, fire) refl, refl)
  | inr n ↦ (loads_second, false, rw (n, fire) refl, refl)
]
script-advances finished first state = (finished, false, refl, refl)
script-advances finished second state = (finished, false, refl, refl)

after_script-IsAt :
    (base : ℕ) (b : Bool) (button : Button) (s : Stage) (t : Tab) (k : IsAt base t)
    → made s ≡ made k.stage + (if b then 1 else 0)
    → button ≡ button_of s
    → IsAt base (after_script (b, button) t)
unfolding make_draggable
after_script-IsAt base true button s t k m e = record {
  stage = s;
  button = e;
  wrappers = omega (arith, k.wrappers, m);
}
after_script-IsAt base false button s t k m e = record {
  stage = s;
  button = e;
  wrappers = omega (arith, k.wrappers, m);
}

module _ (host : Host) (g : Geometry) where
  length-click :
      (ds : List Bool) (w : Widget) (left : Option ℤ)
      → length (click host g ds w left).wrappers ≡ length ds
  unfolding click
  length-click [] w left = refl
  length-click (true ∷ ds) w left = refl
  length-click (false ∷ ds) w left =
      let inner = click host g ds w (some (offset_left g w left)) in
      ground (arith, length-click ds w (some (offset_left g w left)))

  length-mark_dragged : (cs ds : List Bool) → length (mark_dragged cs ds) ≡ length ds
  unfolding mark_dragged
  length-mark_dragged [] ds = refl
  length-mark_dragged (c ∷ cs) [] = refl
  length-mark_dragged (c ∷ cs) (d ∷ ds) = ap suc (length-mark_dragged cs ds)

  widget_event-keeps :
      (e : Main.Event) (t : Tab)
      → ((widget_event host g e t).button ≡ t.button)
        × (length (widget_event host g e t).wrappers ≡ length t.wrappers)
  unfolding widget_event
  widget_event-keeps Main.click t = (refl, length-click t.wrappers t.widget t.left)
  widget_event-keeps (Main.Event.submit_name txt) t = (refl, refl)
  widget_event-keeps (Main.Event.submit_message txt) t = (refl, refl)
  widget_event-keeps Main.opens t = (refl, refl)
  widget_event-keeps Main.fails t = (refl, refl)
  widget_event-keeps (Main.closes e) t = (refl, refl)
  widget_event-keeps (Main.receives txt) t = (refl, refl)
  widget_event-keeps (Main.second i) t = (refl, refl)
  widget_event-keeps Main.title_second t = (refl, refl)
  widget_event-keeps Main.hides t = (refl, refl)
  widget_event-keeps Main.shows t = (refl, refl)
  widget_event-keeps (Main.scrolls top) t = (refl, refl)

  drag-keeps :
      (x : ℤ) (called : List Bool) (t : Tab)
      → ((drag x called t).button ≡ t.button)
        × (length (drag x called t).wrappers ≡ length t.wrappers)
  unfolding drag
  drag-keeps x called t =
      elim t.wrappers
        as (λ ds.
          ((drag x called (record t { wrappers = ds })).button ≡ t.button)
          × (length (drag x called (record t { wrappers = ds })).wrappers ≡ length ds)) [
            | [] ↦ (refl, refl)
            | d ∷ ds ↦ (refl, length-mark_dragged called (d ∷ ds))
          ]

  step-IsAt : (base : ℕ) (t : Tab) (e : Event) → IsAt base t → IsAt base (step host g t e)
  unfolding step
  step-IsAt base t (widget e) k =
      let (b, l) = widget_event-keeps e t in
      record { stage = k.stage; button = b ∙ k.button; wrappers = l ∙ k.wrappers }
  step-IsAt base t (drags x called) k =
      let (b, l) = drag-keeps x called t in
      record { stage = k.stage; button = b ∙ k.button; wrappers = l ∙ k.wrappers }
  step-IsAt base t presses k =
      let (s, e, m) = press-advances k.stage in
      record {
        stage = s;
        button = ap press k.button ∙ e;
        wrappers = k.wrappers ∙ ap (λ n. base + n) m;
      }
  step-IsAt base t (loads part state) k =
      let (s, b, e, m) = script-advances k.stage part state in
      subst (λ (r : Bool × Button). IsAt base (after_script r t))
        (sym (ap (script_event part state) k.button ∙ e))
        (after_script-IsAt base b (button_of s) s t k m refl)

  run-IsAt : (base : ℕ) (es : List Event) (t : Tab) → IsAt base t → IsAt base (run host g t es)
  run-IsAt base [] t k = k
  run-IsAt base (e ∷ es) t k = run-IsAt base es (step host g t e) (step-IsAt base t e k)

-- Whatever is clicked, dragged and loaded, and whatever events the scripts' elements fire, the
-- button is at one of its four stages, with the second script asked for only after the first has
-- been loaded, and the widget was made draggable once by the page if that has the plugin, and once
-- more by the button if both scripts have been loaded.
pub run-start-IsAt :
    (host : Host) (g : Geometry) (plugin : Bool) (config : Option Config) (page : Page)
    (title : Text) (stored : Option Text) (es : List Event)
    → IsAt (if plugin then 1 else 0) (run host g (start host plugin config page title stored) es)
unfolding start fresh make_draggable
run-start-IsAt host g true config page title stored es =
    run-IsAt host g 1 es (start host true config page title stored)
      (record { stage = idle; button = refl; wrappers = refl })
run-start-IsAt host g false config page title stored es =
    run-IsAt host g 0 es (start host false config page title stored)
      (record { stage = idle; button = refl; wrappers = refl })
