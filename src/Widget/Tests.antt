-- ===== src/Widget/Tests.antt =====
-- Runs of the widget of static/chatroomwidget.js on concrete inputs.
use websockethub.Base.{
  ◌≡◌, refl, ◌⊎◌, true, false, none, some, List, [], ◌∷◌, ◌++◌, map, arith, if◌then◌else◌,
}
use websockethub.Base.Int.{pos}
use websockethub.Text.{Text, text, is_word, is_line_end}
use websockethub.Scroll.{is_scrolled_to_bottom, scroll_to_bottom}
use websockethub.Links.{escape_html}
use websockethub.Host.Numbers.{to_number}
use websockethub.Message.{highlight, message_line}
use websockethub.Tests.{browser, page, bob, alice}
use websockethub.Widget.State
use websockethub.Widget.State.{
  Widget, Socket, opened, close_widget, chat, log, name_input, mesg_input, mini, cleanslate,
  has_class, ok, thrown, Thrown,
}
use websockethub.Widget.Log.{to_bottom, append_entry, layout_of, html_of, show_message, thrown_text}
use websockethub.Widget.Commands.{
  parse_command, find_handler, unknown_command, handle_message_input,
}
use websockethub.Widget.Forms.{submit_message, click_minifier}
use websockethub.Widget.Main.{Event, click, opens, receives, scrolls, step, run, start, initial}
use websockethub.Widget.Lifecycle.{run-start-Phase}
use websockethub.Widget.Lifecycle.Phases.{Phase}
use websockethub.Widget.Connected.{IsShown, run-start-IsShown}
use websockethub.Widget.Look.{show_message-run}
use websockethub.Widget.SameLook.{IsLook}
use websockethub.Widget.Toggle.{click_minifier-toggles}
use websockethub.Widget.Typing.{
  submit_message-sends, submit_message-command, submit_message-outcome, submit_message-unknown,
  submit_message-nick,
}
use websockethub.Widget.Typing.Inherited.{submit_message-inherited}
use websockethub.Widget.Countdown.{
  IsRunning, Stays, Leaves, quit_after, quit_delay-Leaves, quit_delay-Stays,
}
use websockethub.Widget.Notice.{closing_in, quit_delay-shows}

abbrev pub socket : Socket
socket = record { ready = opened; sent = [] }

-- A member of a room who has typed something.
abbrev pub typed : Text → Widget
typed line = record (initial (text "Blog") none) {
  myname = some bob;
  attached = true;
  classes = cleanslate ∷ mini ∷ [];
  mesg_value = line;
  mesg_marked = true;
  can_send = true;
  ws = true;
  socket = some socket;
  onquit = some (close_widget ∷ []);
  widget_node = true;
}

abbrev events : List Event
events =
    opens ∷ click ∷ Event.submit_message (text "/quit 1") ∷ receives (text "alice: hi bob") ∷ []

run-start-Phase_example : Phase (run browser (start browser none page (text "Blog") none) events)
run-start-Phase_example = run-start-Phase browser none page (text "Blog") none events

run-start-IsShown_example :
    IsShown
      (run browser (start browser none page (text "Blog") none) events).conn_state
      (run browser (start browser none page (text "Blog") none) events).socket
run-start-IsShown_example = run-start-IsShown browser none page (text "Blog") none events

-- After all that, the user has scrolled up.
abbrev scrolled_up : Widget
scrolled_up = run browser (start browser none page (text "Blog") none) (events ++ scrolls 0 ∷ [])

scrolled_up-attached : scrolled_up.attached ≡ true
unfolding step start submit_message click_minifier has_class websockethub.Url.get_document_loc
    State.add_class highlight is_scrolled_to_bottom scroll_to_bottom
scrolled_up-attached = refl

show_message-run_example :
    (show_message browser (chat bob [] false) scrolled_up).1 ≡ record scrolled_up {
      entries = scrolled_up.entries ++ chat bob [] false ∷ [];
      scroll_top =
          if is_scrolled_to_bottom (layout_of browser scrolled_up) scrolled_up.scroll_top
          then scroll_to_bottom (
              browser.layout scrolled_up.classes
                (map html_of (scrolled_up.entries ++ chat bob [] false ∷ [])))
          else scrolled_up.scroll_top;
    }
show_message-run_example =
    show_message-run browser none page (text "Blog") none (events ++ scrolls 0 ∷ [])
      (chat bob [] false) scrolled_up-attached

typed-IsLook : IsLook (typed [])
unfolding has_class
typed-IsLook = record { styled = refl; focusable = λ a. refl }

click_minifier-toggles_example :
    ((has_class mini (typed []).classes ≡ false)
      × (has_class mini (click_minifier browser (typed [])).1.classes ≡ true))
    ⊎ ((has_class mini (typed []).classes ≡ true)
        × (has_class mini (click_minifier browser (typed [])).1.classes ≡ false)
        × ((click_minifier browser (typed [])).1.scroll_top
            ≡ scroll_to_bottom (layout_of browser (click_minifier browser (typed [])).1))
        × ((click_minifier browser (typed [])).1.focus
            ≡ some (if false then name_input else mesg_input)))
click_minifier-toggles_example = click_minifier-toggles browser (typed []) typed-IsLook refl

submit_message-sends_example :
    ((submit_message browser (typed (text "hi"))).1.socket
      ≡ some (record socket { sent = text "bob: hi" ∷ [] }))
    × ((submit_message browser (typed (text "hi"))).1.mesg_value ≡ [])
    × ((submit_message browser (typed (text "hi"))).1.entries ≡ [])
unfolding message_line
submit_message-sends_example =
    submit_message-sends browser (typed (text "hi")) socket (λ c. absurd (omega (arith, c.0))) refl
      refl refl refl

submit_message-command_example :
    (submit_message browser (typed (text "/quit 2"))).1.socket ≡ some socket
unfolding is_word
submit_message-command_example =
    submit_message-command browser (typed (text "/quit 2")) (refl, refl)

submit_message-outcome_example :
    (((handle_message_input browser (text "/dance") (typed (text "/dance"))).0 ≡ ok tt)
      × ((submit_message browser (typed (text "/dance"))).1
          ≡ record ((handle_message_input browser (text "/dance") (typed (text "/dance"))).1) {
            mesg_value = [];
          }))
    ⊎ ((e : Thrown) × ((handle_message_input browser (text "/dance") (typed (text "/dance"))).0
          ≡ thrown e)
        × ((submit_message browser (typed (text "/dance"))).1
            ≡ to_bottom browser (
                append_entry
                  (log State.Level.error (escape_html (thrown_text browser e)))
                  (typed (text "/dance")))))
submit_message-outcome_example = submit_message-outcome browser (typed (text "/dance")) refl

submit_message-unknown_example :
    ((submit_message browser (typed (text "/dance now"))).1.entries
      ≡ log State.Level.error (escape_html (unknown_command (text "dance"))) ∷ [])
    × ((submit_message browser (typed (text "/dance now"))).1.mesg_value ≡ text "/dance now")
    × ((submit_message browser (typed (text "/dance now"))).1.myname ≡ some bob)
    × ((submit_message browser (typed (text "/dance now"))).1.socket ≡ some socket)
    × ((submit_message browser (typed (text "/dance now"))).1.countdowns ≡ [])
unfolding parse_command find_handler
submit_message-unknown_example =
    submit_message-unknown browser (typed (text "/dance now")) (text "dance") (some (text "now"))
      refl refl refl

submit_message-inherited_example :
    ((submit_message browser (typed (text "/toString"))).1 ≡ typed [])
    ⊎ ((submit_message browser (typed (text "/toString"))).1
        ≡ to_bottom browser (
            append_entry
              (log State.Level.error (escape_html browser.native_error))
              (typed (text "/toString"))))
unfolding parse_command find_handler
submit_message-inherited_example =
    submit_message-inherited browser (typed (text "/toString")) (text "toString") none refl refl
      refl (λ e. cc (e))

submit_message-nick_example :
    ((submit_message browser (typed (text "/nick alice"))).1.myname ≡ some alice)
    × ((submit_message browser (typed (text "/nick alice"))).1.stored ≡ some alice)
    × ((submit_message browser (typed (text "/nick alice"))).1.socket ≡ some socket)
    × ((submit_message browser (typed (text "/nick alice"))).1.entries ≡ [])
    × ((submit_message browser (typed (text "/nick alice"))).1.mesg_value ≡ [])
unfolding is_line_end
submit_message-nick_example =
    submit_message-nick browser (typed (text "/nick alice")) b'a' (text "lice") (ground arith) refl

typed-IsRunning : IsRunning (typed [])
typed-IsRunning = record { ws = refl; onquit = refl; widget_node = refl; attached = refl }

quit_delay-Leaves_example :
    Stays (typed []) (quit_after 2 browser none (typed []))
    × Leaves (typed []) (quit_after 3 browser none (typed []))
quit_delay-Leaves_example = quit_delay-Leaves browser none (typed []) 2 typed-IsRunning refl

quit_delay-shows_example :
    (quit_after 2 browser none (typed [])).entries
    ≡ log State.Level.info (escape_html (closing_in 1)) ∷ []
quit_delay-shows_example = quit_delay-shows browser none (typed []) 1 0 refl tt refl

quit_delay-Stays_example : Stays (typed []) (quit_after 7 browser (some (text "0")) (typed []))
unfolding to_number
quit_delay-Stays_example =
    quit_delay-Stays browser (some (text "0")) (typed []) (pos 0) 7 typed-IsRunning tt refl
