-- ===== src/Widget/Look.antt =====
-- What events do to the classes of the widget's node and to its marked inputs
-- (static/chatroomwidget.js): the styles stay, and a widget in the page has an input to focus.
use websockethub.Base.{
  ◌≡◌, refl, ◌∙◌, inl, inr, true, false, if◌then◌else◌, Option, List, [], ◌∷◌, ◌++◌, map, arith,
  Option-cases, Bool-cases,
}
use websockethub.Text.{Text, text_eq}
use websockethub.Host.{Host}
use websockethub.Scroll.{is_scrolled_to_bottom, scroll_to_bottom}
use websockethub.Url.{Config, Page, get_websocket_url}
use websockethub.Widget.State.{
  Widget, Entry, mini, config_mode, init_config, cleanslate, has_class, add_class, remove_class,
}
use websockethub.Widget.Log.{log_to_user, layout_of, html_of, must_scroll_to_bottom, show_message}
use websockethub.Widget.Commands.{
  handle_message_input, handle_command, send_message, parse_command, run_handler, handler_of,
  config, Handler, nick_handler, config_handler, about_handler, quit_handler, help_handler,
  idle_function, throwing_value,
}
use websockethub.Widget.Connection.{onclose, onerror}
use websockethub.Widget.Forms
use websockethub.Widget.Main.{
  Event, click, opens, fails, closes, receives, second, title_second, hides, shows, scrolls, handle,
  step, run, start,
}
use websockethub.Widget.Classes.{has_class-add_class, has_class-remove_class, must_scroll-IsStyled}
use websockethub.Widget.SameLook.{
  IsLook, IsLook-SameLook, nick-SameLook, about-SameLook, help-SameLook, quit_delay-SameLook,
  send_message-SameLook, onclose-SameLook, submit_message-SameLook, tick-SameLook, end_at-SameLook,
  onerror-SameLook, open_at-SameLook, line_at-SameLook,
}

config-IsLook : (w : Widget) → IsLook w → IsLook (config w).1
unfolding config
config-IsLook w l = ground (arith, has_class-add_class cleanslate config_mode w.classes)

run_handler-IsLook :
    (host : Host) (h : Handler) (arg : Option Text) (w : Widget)
    → IsLook w
    → IsLook (run_handler host h arg w).1
unfolding run_handler
run_handler-IsLook host nick_handler arg w l = IsLook-SameLook w _ (nick-SameLook host arg w) l
run_handler-IsLook host config_handler arg w l = config-IsLook w l
run_handler-IsLook host about_handler arg w l = IsLook-SameLook w _ (about-SameLook host w) l
run_handler-IsLook host quit_handler arg w l =
    IsLook-SameLook w _ (quit_delay-SameLook host arg w) l
run_handler-IsLook host help_handler arg w l = IsLook-SameLook w _ (help-SameLook host w) l
run_handler-IsLook host idle_function arg w l = l
run_handler-IsLook host throwing_value arg w l = l

handle_message_input-IsLook :
    (host : Host) (txt : Text) (w : Widget) → IsLook w → IsLook (handle_message_input host txt w).1
unfolding handle_message_input
handle_message_input-IsLook host txt w l = elim (Option-cases (parse_command txt)) [
  | inl n ↦
      rw (n, handle_message_input)
        (IsLook-SameLook w (send_message txt w).1 (send_message-SameLook txt w) l)
  | inr ((cmd, arg), e) ↦
      rw (e, handle_message_input)
        (elim (Option-cases (handler_of cmd)) [
          | inl n ↦ rw (n, handle_command) l
          | inr (h, f) ↦ rw (f, handle_command) (run_handler-IsLook host h arg w l)
        ])
]

keeps_styles :
    (d : Text) (cs : List Text)
    → text_eq d cleanslate ≡ false
    → has_class cleanslate cs ≡ true
    → has_class cleanslate (remove_class d cs) ≡ true
keeps_styles d cs n h = has_class-remove_class cleanslate d cs n ∙ h

submit_name-IsLook : (host : Host) (w : Widget) → IsLook w → IsLook (Forms.submit_name host w).1
unfolding Forms.submit_name
submit_name-IsLook host w l =
    let first = keeps_styles config_mode w.classes refl l.styled in
    let both = keeps_styles init_config (remove_class config_mode w.classes) refl first in
    elim (Bool-cases w.attached) [
      | inl a ↦ record { styled = ground arith; focusable = ground arith }
      | inr n ↦ record { styled = ground arith; focusable = ground arith }
    ]

click_minifier-IsLook :
    (host : Host) (w : Widget) → IsLook w → IsLook (Forms.click_minifier host w).1
unfolding Forms.click_minifier
click_minifier-IsLook host w l =
    let less = keeps_styles mini w.classes refl l.styled in
    let more = has_class-add_class cleanslate mini w.classes l.styled in
    record { styled = ground arith; focusable = ground arith }

handle-IsLook : (host : Host) (e : Event) (w : Widget) → IsLook w → IsLook (handle host e w).1
unfolding handle
handle-IsLook host (Event.submit_name txt) w l =
    let v = record w { name_value = txt } in
    submit_name-IsLook host v (IsLook-SameLook w v (ground arith) l)
handle-IsLook host (Event.submit_message txt) w l =
    let v = record w { mesg_value = txt } in
    IsLook-SameLook (handle_message_input host txt v).1 _ (submit_message-SameLook host v)
      (handle_message_input-IsLook host txt v (IsLook-SameLook w v (ground arith) l))
handle-IsLook host click w l = click_minifier-IsLook host w l
handle-IsLook host opens w l = IsLook-SameLook w _ (open_at-SameLook w.socket w) l
handle-IsLook host fails w l =
    IsLook-SameLook w _ (end_at-SameLook w.socket onerror w onerror-SameLook) l
handle-IsLook host (closes e) w l =
    IsLook-SameLook w _ (end_at-SameLook w.socket (onclose host e) w (onclose-SameLook host e)) l
handle-IsLook host (receives txt) w l = IsLook-SameLook w _ (line_at-SameLook w.socket host txt w) l
handle-IsLook host (second i) w l = IsLook-SameLook w _ (tick-SameLook host i w) l
handle-IsLook host title_second w l = IsLook-SameLook w _ (ground arith) l
handle-IsLook host hides w l = IsLook-SameLook w _ (ground arith) l
handle-IsLook host shows w l = IsLook-SameLook w _ (ground arith) l
handle-IsLook host (scrolls top) w l = IsLook-SameLook w _ (ground arith) l

-- The classes after `createWidget` and `toMini`.
built :
    has_class cleanslate
      (add_class mini (add_class init_config (add_class cleanslate (add_class config_mode []))))
    ≡ true
unfolding add_class
built = refl

module _ (host : Host) (config : Option Config) (page : Page) (title : Text)
    (stored : Option Text) where
  start-IsLook : IsLook (start host config page title stored)
  unfolding start onerror onclose log_to_user
  start-IsLook = elim (Option-cases (get_websocket_url config page)) [
    | inl n ↦ rw (n, start) (record { styled = ground (arith, built); focusable = ground arith })
    | inr (url, e) ↦ elim (Option-cases (host.refusal url)) [
      | inl n ↦
          rw (e, start)
            (rw (n, start) (record { styled = ground (arith, built); focusable = ground arith }))
      | inr (msg, r) ↦
          rw (e, start)
            (rw (r, start) (record { styled = ground (arith, built); focusable = ground arith }))
    ]
  ]

run-IsLook : (host : Host) (es : List Event) (w : Widget) → IsLook w → IsLook (run host w es)
unfolding step
run-IsLook host [] w l = l
run-IsLook host (e ∷ es) w l = run-IsLook host es (step host w e) (handle-IsLook host e w l)

module _ (host : Host) (config : Option Config) (page : Page) (title : Text) (stored : Option Text)
    (events : List Event) where
  abbrev here : Widget
  here = run host (start host config page title stored) events

  pub run-start-IsLook : IsLook here
  run-start-IsLook = run-IsLook host events _ (start-IsLook host config page title stored)

  -- Whatever has happened since the page was loaded, if the widget stands in the page: a new
  -- message is put behind the others, and if the list of messages was scrolled to the bottom before,
  -- it is scrolled as far as it can be with the new message; if not, it stays where it was. Whether
  -- the widget is minimised plays no part.
  pub show_message-run :
      (e : Entry)
      → here.attached ≡ true
      → (show_message host e here).1 ≡ record here {
        entries = here.entries ++ e ∷ [];
        scroll_top =
            if is_scrolled_to_bottom (layout_of host here) here.scroll_top
            then scroll_to_bottom (host.layout here.classes (map html_of (here.entries ++ e ∷ [])))
            else here.scroll_top;
      }
  unfolding show_message
  show_message-run e a =
      let bottom = is_scrolled_to_bottom (layout_of host here) here.scroll_top in
      let test : must_scroll_to_bottom host here ≡ bottom =
        must_scroll-IsStyled host here run-start-IsLook.styled in
      rw (a, test) (elim (Bool-cases bottom) [ inl y ↦ rw y refl | inr n ↦ rw n refl ])
