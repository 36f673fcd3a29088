-- ===== src/Widget/Connected.antt =====
-- What `data-conn-state` tells of the socket (static/chatroomwidget.js).
use websockethub.Base.{
  ℕ, ◌≡◌, ◌≢◌, inl, inr, Option, none, some, List, [], ◌∷◌, arith, Option-cases, Bool-cases,
}
use websockethub.Text.{Text}
use websockethub.Host.{Host}
use websockethub.Host.Numbers.{is_num, minus_one}
use websockethub.Url.{Config, Page, get_websocket_url}
use websockethub.Widget.State
use websockethub.Widget.State.{
  Widget, ConnState, connected, Socket, starting, opened, closing, gone, QuitHandler, close_widget,
  ok, thrown, Do, ◌>>◌,
}
use websockethub.Widget.Log.{log_to_user, about, show_message}
use websockethub.Widget.Quit.{
  countdown_at, set_countdown, quit_delay, tick, quit_immediately, run_handlers, close_ws,
  remove_node,
}
use websockethub.Widget.Commands.{
  handle_message_input, handle_command, send_message, parse_command, run_handler, handler_of, nick,
  config, help, Handler, nick_handler, config_handler, about_handler, quit_handler, help_handler,
  idle_function, throwing_value,
}
use websockethub.Widget.Connection.{CloseEvent, onclose, onopen, onerror}
use websockethub.Widget.Forms
use websockethub.Widget.Incoming.{handle_incoming_message}
use websockethub.Widget.Main.{
  end_at, open_at, line_at, Event, click, opens, fails, closes, receives, second, title_second,
  hides, shows, scrolls, handle, step, run, start,
}

-- An open socket is shown as connected, and one that is not open yet or has ended is not.
abbrev pub IsShown : ConnState → Option Socket → Type 0
IsShown c none = c ≢ connected
IsShown c (some s) = elim s.ready [ opened ↦ c ≡ connected | closing ↦ Unit | _ ↦ c ≢ connected ]

abbrev Shown : Widget → Type 0
Shown w = IsShown w.conn_state w.socket

-- Nothing changes in what is shown of the connection, nor in the socket.
record SameView (w v : Widget) : Type 0 where
  conn_state : v.conn_state ≡ w.conn_state
  socket : v.socket ≡ w.socket

Shown-SameView : (w v : Widget) → SameView w v → Shown w → Shown v
Shown-SameView w v s h = rw (s.conn_state, s.socket) h

module _ (host : Host) where
  run_handler-SameView :
      (h : Handler) (arg : Option Text) (w : Widget) → SameView w (run_handler host h arg w).1
  unfolding run_handler log_to_user nick config about quit_delay help
  run_handler-SameView nick_handler arg w = ground arith
  run_handler-SameView config_handler arg w = ground arith
  run_handler-SameView about_handler arg w = ground arith
  run_handler-SameView quit_handler arg w = ground arith
  run_handler-SameView help_handler arg w = ground arith
  run_handler-SameView idle_function arg w = ground arith
  run_handler-SameView throwing_value arg w = ground arith

  handle_command-SameView :
      (cmd : Text) (arg : Option Text) (w : Widget) → SameView w (handle_command host cmd arg w).1
  unfolding handle_command
  handle_command-SameView cmd arg w = elim (Option-cases (handler_of cmd)) [
    | inl n ↦ rw (n, handle_command) (ground arith)
    | inr (h, e) ↦ rw (e, handle_command) (run_handler-SameView h arg w)
  ]

  send_message-Shown : (txt : Text) (w : Widget) → Shown w → Shown (send_message txt w).1
  unfolding send_message
  send_message-Shown txt w h = ground arith

  handle_message_input-Shown :
      (txt : Text) (w : Widget) → Shown w → Shown (handle_message_input host txt w).1
  unfolding handle_message_input
  handle_message_input-Shown txt w h = elim (Option-cases (parse_command txt)) [
    | inl n ↦ rw (n, handle_message_input) (send_message-Shown txt w h)
    | inr ((cmd, arg), e) ↦
        rw (e, handle_message_input)
          (Shown-SameView w (handle_command host cmd arg w).1 (handle_command-SameView cmd arg w) h)
  ]

  submit_message-SameView :
      (w : Widget)
      → SameView (handle_message_input host w.mesg_value w).1 (Forms.submit_message host w).1
  unfolding Forms.submit_message log_to_user
  submit_message-SameView w = ground arith

  submit_name-SameView : (w : Widget) → SameView w (Forms.submit_name host w).1
  unfolding Forms.submit_name
  submit_name-SameView w = ground arith

  click_minifier-SameView : (w : Widget) → SameView w (Forms.click_minifier host w).1
  unfolding Forms.click_minifier
  click_minifier-SameView w = ground arith

  line-SameView : (txt : Text) (w : Widget) → SameView w (handle_incoming_message host txt w).1
  unfolding handle_incoming_message show_message
  line-SameView txt w = ground arith

  line_at-SameView :
      (o : Option Socket) (txt : Text) (w : Widget)
      → SameView w (line_at o (handle_incoming_message host txt) w).1
  line_at-SameView none txt w = ground arith
  line_at-SameView (some s) txt w = ground (arith, line-SameView txt w)

  close_ws-Shown : (w : Widget) → Shown w → Shown (close_ws w).1
  unfolding close_ws
  close_ws-Shown w h = ground arith

  remove_node-Shown : (w : Widget) → Shown w → Shown (remove_node w).1
  unfolding remove_node
  remove_node-Shown w h = ground arith

  -- One program after another.
  next-Shown :
      (r : State.Outcome (Unit {0}) × Widget) (m : Do)
      → ((v : Widget) → Shown v → Shown (m v).1)
      → Shown r.1
      → Shown (State.next r (λ _. m)).1
  next-Shown (ok a, v) m keeps h = keeps v h
  next-Shown (thrown e, v) m keeps h = h

  run_handlers-Shown : (hs : List QuitHandler) (w : Widget) → Shown w → Shown (run_handlers hs w).1
  unfolding run_handlers
  run_handlers-Shown [] w h = h
  run_handlers-Shown (close_widget ∷ hs) w h =
      next-Shown (close_ws w) (remove_node >> run_handlers hs)
        (λ v k.
          next-Shown (remove_node v) (run_handlers hs) (run_handlers-Shown hs)
            (remove_node-Shown v k))
        (close_ws-Shown w h)

  quit_immediately-Shown : (w : Widget) → Shown w → Shown (quit_immediately w).1
  unfolding quit_immediately
  quit_immediately-Shown w h = elim (Option-cases w.onquit) [
    | inl n ↦ rw (n, quit_immediately) h
    | inr (hs, e) ↦
        rw (e, quit_immediately)
          (next-Shown (run_handlers hs w) (State.change (λ v. record v { onquit = none }))
            (λ v k. k) (run_handlers-Shown hs w h))
  ]

  tick-Shown : (i : ℕ) (w : Widget) → Shown w → Shown (tick host i w).1
  unfolding tick
  tick-Shown i w h = elim (Option-cases (countdown_at i w)) [
    | inl n ↦ rw (n, tick) h
    | inr (none, n) ↦ rw (n, tick) h
    | inr (some c, e) ↦ elim (Bool-cases (is_num 0 (minus_one host.odd_minus_one c.seconds))) [
      | inl z ↦
          rw (e, tick)
            (rw (z, tick)
              (quit_immediately-Shown (record w { countdowns = set_countdown i none w.countdowns })
                h))
      | inr n ↦ rw (e, tick) (rw (n, tick) h)
    ]
  ]

  open_at-Shown : (w : Widget) → Shown w → Shown (open_at w.socket onopen w).1
  unfolding onopen
  open_at-Shown w h = ground arith

  onerror_at-Shown : (w : Widget) → Shown w → Shown (end_at w.socket onerror w).1
  unfolding onerror
  onerror_at-Shown w h = ground arith

  onclose_at-Shown :
      (e : CloseEvent) (w : Widget) → Shown w → Shown (end_at w.socket (onclose host e) w).1
  unfolding onclose log_to_user
  onclose_at-Shown e w h = ground arith

  handle-Shown : (e : Event) (w : Widget) → Shown w → Shown (handle host e w).1
  unfolding handle
  handle-Shown (Event.submit_name txt) w h =
      let v = record w { name_value = txt } in
      Shown-SameView v (Forms.submit_name host v).1 (submit_name-SameView v) h
  handle-Shown (Event.submit_message txt) w h =
      let v = record w { mesg_value = txt } in
      Shown-SameView (handle_message_input host txt v).1 (Forms.submit_message host v).1
        (submit_message-SameView v) (handle_message_input-Shown txt v h)
  handle-Shown click w h =
      Shown-SameView w (Forms.click_minifier host w).1 (click_minifier-SameView w) h
  handle-Shown opens w h = open_at-Shown w h
  handle-Shown fails w h = onerror_at-Shown w h
  handle-Shown (closes e) w h = onclose_at-Shown e w h
  handle-Shown (receives txt) w h = Shown-SameView w _ (line_at-SameView w.socket txt w) h
  handle-Shown (second i) w h = tick-Shown i w h
  handle-Shown title_second w h = h
  handle-Shown hides w h = h
  handle-Shown shows w h = Shown-SameView w ((handle host shows w).1) (ground arith) h
  handle-Shown (scrolls top) w h =
      Shown-SameView w ((handle host (scrolls top) w).1) (ground arith) h

  run-Shown : (es : List Event) (w : Widget) → Shown w → Shown (run host w es)
  unfolding step
  run-Shown [] w h = h
  run-Shown (e ∷ es) w h = run-Shown es (step host w e) (handle-Shown e w h)

  start-Shown :
      (config : Option Config) (page : Page) (title : Text) (stored : Option Text)
      → Shown (start host config page title stored)
  unfolding start onerror onclose log_to_user
  start-Shown config page title stored = elim (Option-cases (get_websocket_url config page)) [
    | inl n ↦ rw (n, start) (ground arith)
    | inr (url, e) ↦ elim (Option-cases (host.refusal url)) [
      | inl n ↦ rw (e, start) (rw (n, start) (ground arith))
      | inr (msg, r) ↦ rw (e, start) (rw (r, start) (ground arith))
    ]
  ]

-- Whatever events follow the start, while the socket is open the widget is shown as connected, and
-- it is not while there is no socket, while it is being opened and after the connection has ended;
-- only a socket that the script has closed itself may still be shown as connected.
pub run-start-IsShown :
    (host : Host) (config : Option Config) (page : Page) (title : Text) (stored : Option Text)
    (events : List Event)
    → IsShown
        (run host (start host config page title stored) events).conn_state
        (run host (start host config page title stored) events).socket
run-start-IsShown host config page title stored events =
    run-Shown host events (start host config page title stored)
      (start-Shown host config page title stored)
