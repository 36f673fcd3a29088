-- ===== src/Widget/Lifecycle/Phases.antt =====
-- The events of a widget of static/chatroomwidget.js and its phases.
use websockethub.Base.{
  ℕ, ◌≡◌, ◌≢◌, ◌⊎◌, inl, inr, true, false, Option, none, some, [], ◌∷◌, arith, Option-cases,
}
use websockethub.Text.{Text}
use websockethub.Host.{Host}
use websockethub.Widget.State.{Widget, Socket, closing, gone, close_widget, Do}
use websockethub.Widget.Quit.{tick, quit_immediately}
use websockethub.Widget.Commands.{handle_message_input, handle_command, send_message, parse_command}
use websockethub.Widget.Connection.{onclose, onopen, onerror}
use websockethub.Widget.Forms
use websockethub.Widget.Main.{
  set_ready, end_at, open_at, Event, click, opens, fails, closes, receives, second, title_second,
  hides, shows, scrolls, handle,
}
use websockethub.Widget.Core.{
  SameCore, onclose-SameCore, submit_name-SameCore, click_minifier-SameCore,
  handle_command-SameCore, submit_message-SameCore, tick-TickCore, onerror-SameCore,
  line_at-SameCore, waits, quits,
}

-- A socket that the script has not closed, or one that it has.
abbrev IsHeld : Option Socket → Type 0
IsHeld none = ⊥
IsHeld (some s) = s.ready ≢ closing

abbrev IsGone : Option Socket → Type 0
IsGone none = ⊥
IsGone (some s) = (s.ready ≡ closing) ⊎ (s.ready ≡ gone)

-- `running`: connected, with the handler that will close the socket and take the widget away.
-- `unconnected`: in the page, but without a socket and with nothing to be done at the end.
-- `left`: the handler has run. `failed`: the widget could not be built.
pub data Phase (w : Widget) : Type 0 where
  running :
      w.ws ≡ true
      → w.can_send ≡ true
      → w.onquit ≡ some (close_widget ∷ [])
      → w.widget_node ≡ true
      → w.attached ≡ true
      → IsHeld w.socket
      → Phase w
  unconnected :
      w.ws ≡ false
      → w.can_send ≡ false
      → (w.onquit ≡ some []) ⊎ (w.onquit ≡ none)
      → w.widget_node ≡ true
      → w.attached ≡ true
      → w.socket ≡ none
      → Phase w
  left :
      w.ws ≡ false
      → w.can_send ≡ true
      → w.onquit ≡ none
      → w.widget_node ≡ false
      → w.attached ≡ false
      → IsGone w.socket
      → Phase w
  failed :
      w.ws ≡ false
      → w.can_send ≡ false
      → (w.onquit ≡ some []) ⊎ (w.onquit ≡ none)
      → w.widget_node ≡ false
      → w.attached ≡ false
      → w.socket ≡ none
      → Phase w

Phase-SameCore : (w v : Widget) → SameCore w v → Phase w → Phase v
Phase-SameCore w v c (running a b d e f g) =
    running (cc c.ws) (cc c.can_send) (cc c.onquit) (cc c.widget_node) (cc c.attached)
      (rw (c.socket) g)
Phase-SameCore w v c (unconnected a b d e f g) =
    unconnected (cc c.ws) (cc c.can_send) (rw (c.onquit) d) (cc c.widget_node) (cc c.attached)
      (cc c.socket)
Phase-SameCore w v c (left a b d e f g) =
    left (cc c.ws) (cc c.can_send) (cc c.onquit) (cc c.widget_node) (cc c.attached)
      (rw (c.socket) g)
Phase-SameCore w v c (failed a b d e f g) =
    failed (cc c.ws) (cc c.can_send) (rw (c.onquit) d) (cc c.widget_node) (cc c.attached)
      (cc c.socket)

send_message-Phase : (txt : Text) (w : Widget) → Phase w → Phase (send_message txt w).1
unfolding send_message
send_message-Phase txt w (running a b d e f g) =
    running (ground arith) (ground arith) (ground arith) (ground arith) (ground arith)
      (ground arith)
send_message-Phase txt w (unconnected a b d e f g) =
    unconnected (ground arith) (ground arith) (ground arith) (ground arith) (ground arith)
      (ground arith)
send_message-Phase txt w (left a b d e f g) =
    left (ground arith) (ground arith) (ground arith) (ground arith) (ground arith) (ground arith)
send_message-Phase txt w (failed a b d e f g) =
    failed (ground arith) (ground arith) (ground arith) (ground arith) (ground arith) (ground arith)

handle_message_input-Phase :
    (host : Host) (txt : Text) (w : Widget) → Phase w → Phase (handle_message_input host txt w).1
unfolding handle_message_input
handle_message_input-Phase host txt w p = elim (Option-cases (parse_command txt)) [
  | inl n ↦ rw (n, handle_message_input) (send_message-Phase txt w p)
  | inr ((cmd, arg), e) ↦
      rw (e, handle_message_input)
        (Phase-SameCore w (handle_command host cmd arg w).1 (handle_command-SameCore host cmd arg w)
          p)
]

quit_immediately-Phase : (w : Widget) → Phase w → Phase (quit_immediately w).1
unfolding quit_immediately
quit_immediately-Phase w (running a b d e f g) =
    left (ground arith) (ground arith) (ground arith) (ground arith) (ground arith) (ground arith)
quit_immediately-Phase w (unconnected a b d e f g) =
    unconnected (ground arith) (ground arith) (ground arith) (ground arith) (ground arith)
      (ground arith)
quit_immediately-Phase w (left a b d e f g) =
    left (ground arith) (ground arith) (ground arith) (ground arith) (ground arith) (ground arith)
quit_immediately-Phase w (failed a b d e f g) =
    failed (ground arith) (ground arith) (ground arith) (ground arith) (ground arith) (ground arith)

tick-Phase : (host : Host) (i : ℕ) (w : Widget) → Phase w → Phase (tick host i w).1
tick-Phase host i w p = elim (tick-TickCore host i w) [
  | waits c ↦ Phase-SameCore w (tick host i w).1 c p
  | quits v c e ↦ rw e (quit_immediately-Phase v (Phase-SameCore w v c p))
]

gone-Phase : (w : Widget) → Phase w → Phase (set_ready gone w)
gone-Phase w (running a b d e f g) =
    running (ground arith) (ground arith) (ground arith) (ground arith) (ground arith)
      (ground arith)
gone-Phase w (unconnected a b d e f g) =
    unconnected (ground arith) (ground arith) (ground arith) (ground arith) (ground arith)
      (ground arith)
gone-Phase w (left a b d e f g) =
    left (ground arith) (ground arith) (ground arith) (ground arith) (ground arith) (ground arith)
gone-Phase w (failed a b d e f g) =
    failed (ground arith) (ground arith) (ground arith) (ground arith) (ground arith) (ground arith)

on_open-Phase : (w : Widget) → Phase w → Phase (open_at w.socket onopen w).1
unfolding onopen
on_open-Phase w (running a b d e f g) =
    running (ground arith) (ground arith) (ground arith) (ground arith) (ground arith)
      (ground arith)
on_open-Phase w (unconnected a b d e f g) =
    unconnected (ground arith) (ground arith) (ground arith) (ground arith) (ground arith)
      (ground arith)
on_open-Phase w (left a b d e f g) =
    left (ground arith) (ground arith) (ground arith) (ground arith) (ground arith) (ground arith)
on_open-Phase w (failed a b d e f g) =
    failed (ground arith) (ground arith) (ground arith) (ground arith) (ground arith) (ground arith)

end_at-Phase :
    (o : Option Socket) (handler : Do) (w : Widget)
    → ((v : Widget) → SameCore v (handler v).1)
    → Phase w
    → Phase (end_at o handler w).1
end_at-Phase none handler w same p = p
end_at-Phase (some s) handler w same p =
    let v = set_ready gone w in Phase-SameCore v (handler v).1 (same v) (gone-Phase w p)

pub handle-Phase : (host : Host) (e : Event) (w : Widget) → Phase w → Phase (handle host e w).1
unfolding handle
handle-Phase host (Event.submit_name txt) w p =
    let v = record w { name_value = txt } in
    Phase-SameCore v (Forms.submit_name host v).1 (submit_name-SameCore host v)
      (Phase-SameCore w v (ground arith) p)
handle-Phase host (Event.submit_message txt) w p =
    let v = record w { mesg_value = txt } in
    Phase-SameCore (handle_message_input host txt v).1 (Forms.submit_message host v).1
      (submit_message-SameCore host v)
      (handle_message_input-Phase host txt v (Phase-SameCore w v (ground arith) p))
handle-Phase host click w p =
    Phase-SameCore w (Forms.click_minifier host w).1 (click_minifier-SameCore host w) p
handle-Phase host opens w p = on_open-Phase w p
handle-Phase host fails w p = end_at-Phase w.socket onerror w onerror-SameCore p
handle-Phase host (closes e) w p =
    end_at-Phase w.socket (onclose host e) w (onclose-SameCore host e) p
handle-Phase host (receives txt) w p = Phase-SameCore w _ (line_at-SameCore w.socket host txt w) p
handle-Phase host (second i) w p = tick-Phase host i w p
handle-Phase host title_second w p = Phase-SameCore w _ (ground arith) p
handle-Phase host hides w p = Phase-SameCore w _ (ground arith) p
handle-Phase host shows w p = Phase-SameCore w _ (ground arith) p
handle-Phase host (scrolls top) w p = Phase-SameCore w _ (ground arith) p
