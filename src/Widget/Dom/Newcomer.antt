-- ===== src/Widget/Dom/Newcomer.antt =====
-- What of the widget of static/chatroomwidget.js is rendered before and after a nickname was entered.
use websockethub.Base.{
  ◌≡◌, refl, ap, ◌∙◌, Bool, true, false, ◌&&◌, not, Option, List, [], ◌∷◌, arith, any, Option-cases,
  inl, inr, if◌then◌else◌,
}
use websockethub.Text.{Text}
use websockethub.Host.{Host}
use websockethub.Url.{Config, Page, get_websocket_url}
use websockethub.Style.{Screen}
use websockethub.Widget.State.{
  Widget, mini, config_mode, init_config, cleanslate, has_class, add_class, remove_class,
}
use websockethub.Widget.Log.{log_to_user}
use websockethub.Widget.Commands.{
  handle_message_input, handle_command, parse_command, run_handler, handler_of, config, Handler,
  nick_handler, config_handler, about_handler, quit_handler, help_handler, idle_function,
  throwing_value,
}
use websockethub.Widget.Connection.{onclose, onerror}
use websockethub.Widget.Forms
use websockethub.Widget.Main.{
  Event, click, opens, fails, closes, receives, second, title_second, hides, shows, scrolls, handle,
  step, run, start,
}
use websockethub.Widget.Classes.{has_class-add_other, has_class-remove_self, has_class-remove_class}
use websockethub.Widget.SameLook.{
  nick-SameLook, about-SameLook, help-SameLook, quit_delay-SameLook, send_message-SameLook,
  onclose-SameLook, submit_message-SameLook, tick-SameLook, end_at-SameLook, onerror-SameLook,
  open_at-SameLook, line_at-SameLook,
}
use websockethub.Widget.Drag.Loader.{Label}
use websockethub.Widget.Dom.Display.{IsPoliteScreen}
use websockethub.Widget.Dom.Shown.{view_for, rendered_widget, rendered-widget_node}

abbrev pub is_submit_name : Event → Bool
is_submit_name (Event.submit_name txt) = true
is_submit_name _ = false

abbrev is_new : Widget → Bool
is_new w = has_class init_config w.classes

run_handler-is_new :
    (host : Host) (h : Handler) (arg : Option Text) (w : Widget)
    → is_new (run_handler host h arg w).1 ≡ is_new w
unfolding run_handler config
run_handler-is_new host nick_handler arg w = rw ((nick-SameLook host arg w).classes) refl
run_handler-is_new host config_handler arg w =
    ground (arith, has_class-add_other init_config config_mode w.classes refl)
run_handler-is_new host about_handler arg w = rw ((about-SameLook host w).classes) refl
run_handler-is_new host quit_handler arg w = rw ((quit_delay-SameLook host arg w).classes) refl
run_handler-is_new host help_handler arg w = rw ((help-SameLook host w).classes) refl
run_handler-is_new host idle_function arg w = refl
run_handler-is_new host throwing_value arg w = refl

handle_message_input-is_new :
    (host : Host) (txt : Text) (w : Widget) → is_new (handle_message_input host txt w).1 ≡ is_new w
unfolding handle_message_input
handle_message_input-is_new host txt w = elim (Option-cases (parse_command txt)) [
  | inl n ↦ rw (n, handle_message_input) (rw ((send_message-SameLook txt w).classes) refl)
  | inr ((cmd, arg), e) ↦
      rw (e, handle_message_input)
        (elim (Option-cases (handler_of cmd)) [
          | inl n ↦ rw (n, handle_command) refl
          | inr (h, f) ↦ rw (f, handle_command) (run_handler-is_new host h arg w)
        ])
]

submit_name-is_new : (host : Host) (w : Widget) → is_new (Forms.submit_name host w).1 ≡ false
unfolding Forms.submit_name
submit_name-is_new host w =
    ground (arith, has_class-remove_self init_config (remove_class config_mode w.classes))

click_minifier-is_new :
    (host : Host) (w : Widget) → is_new (Forms.click_minifier host w).1 ≡ is_new w
unfolding Forms.click_minifier
click_minifier-is_new host w = ground (
  arith,
  has_class-add_other init_config mini w.classes refl,
  has_class-remove_class init_config mini w.classes refl,
)

handle-is_new :
    (host : Host) (e : Event) (w : Widget)
    → is_new (handle host e w).1 ≡ (if is_submit_name e then false else is_new w)
unfolding handle
handle-is_new host (Event.submit_name txt) w =
    submit_name-is_new host (record w { name_value = txt })
handle-is_new host (Event.submit_message txt) w =
    let v = record w { mesg_value = txt } in
    ap (has_class init_config) (submit_message-SameLook host v).classes
    ∙ handle_message_input-is_new host txt v
handle-is_new host click w = click_minifier-is_new host w
handle-is_new host opens w = rw ((open_at-SameLook w.socket w).classes) refl
handle-is_new host fails w = rw ((end_at-SameLook w.socket onerror w onerror-SameLook).classes) refl
handle-is_new host (closes e) w =
    rw ((end_at-SameLook w.socket (onclose host e) w (onclose-SameLook host e)).classes) refl
handle-is_new host (receives txt) w = rw ((line_at-SameLook w.socket host txt w).classes) refl
handle-is_new host (second i) w = rw ((tick-SameLook host i w).classes) refl
handle-is_new host title_second w = refl
handle-is_new host hides w = refl
handle-is_new host shows w = ground arith
handle-is_new host (scrolls top) w = refl

run-is_new :
    (host : Host) (es : List Event) (w : Widget)
    → is_new (run host w es) ≡ (is_new w && not (any is_submit_name es))
unfolding step
run-is_new host [] w = ground arith
run-is_new host (e ∷ es) w =
    ground (arith, handle-is_new host e w, run-is_new host es (step host w e))

built :
    has_class init_config
      (add_class mini (add_class init_config (add_class cleanslate (add_class config_mode []))))
    ≡ true
unfolding add_class
built = refl

module _ (host : Host) (config : Option Config) (page : Page) (title : Text)
    (stored : Option Text) where
  start-is_new : is_new (start host config page title stored) ≡ true
  unfolding start onerror onclose log_to_user
  start-is_new = elim (Option-cases (get_websocket_url config page)) [
    | inl n ↦ rw (n, start) built
    | inr (url, e) ↦ elim (Option-cases (host.refusal url)) [
      | inl n ↦ rw (e, start) (rw (n, start) (ground (arith, built)))
      | inr (msg, r) ↦ rw (e, start) (rw (r, start) (ground (arith, built)))
    ]
  ]

-- On a page whose other style sheets name no ids for the elements of the widget, do not hide them and
-- mark no declaration of `display` as important, whatever the configuration and the browser are and
-- whatever events follow the start: while the widget stands in the page, the elements of it that no
-- `display: none` hides are its node; the notice about the connection unless it is connected; the
-- form for the nickname while it is in configuration mode and not minimised, and with it the button
-- for dragging only if a nickname was entered before; the whole list of messages; the form for
-- messages unless it is minimised; and the minifier. Once it has left the page there are none. Where
-- they lie and what covers them is left open.
pub rendered-run :
    (scr : Screen)
    → IsPoliteScreen scr
    → (host : Host) (config : Option Config) (page : Page) (title : Text) (stored : Option Text)
      (events : List Event) (label : Label)
    → let here = run host (start host config page title stored) events in
      rendered_widget scr here label
      ≡ (if here.attached then view_for (not (any is_submit_name events)) here label else [])
rendered-run scr polite host config page title stored events label =
    let here = run host (start host config page title stored) events in
    rendered-widget_node scr polite here label
    ∙ ap (λ b. if here.attached then view_for b here label else [])
        (run-is_new host events (start host config page title stored)
          ∙ rw (start-is_new host config page title stored) refl)
