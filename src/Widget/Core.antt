-- ===== src/Widget/Core.antt =====
-- The part of the state of static/chatroomwidget.js that most handlers leave alone: the connection,
-- and what is to be done when the user leaves.
use websockethub.Base.{ℕ, ◌≡◌, refl, inl, inr, Option, none, some, arith, Option-cases, Bool-cases}
use websockethub.Text.{Text}
use websockethub.Host.{Host}
use websockethub.Widget.State
use websockethub.Widget.State.{
  Widget, Socket, Ready, starting, opened, closing, gone, QuitHandler, close_widget, ok, thrown, M,
  Do, Outcome,
}
use websockethub.Widget.Log.{log_to_user, about}
use websockethub.Host.Numbers.{is_num, minus_one}
use websockethub.Widget.Quit.{countdown_at, set_countdown, quit_delay, tick, quit_immediately}
use websockethub.Widget.Commands.{
  handle_message_input, handle_command, run_handler, handler_of, nick, config, help, Handler,
  nick_handler, config_handler, about_handler, quit_handler, help_handler, idle_function,
  throwing_value,
}
use websockethub.Widget.Connection.{CloseEvent, onclose, onerror}
use websockethub.Widget.Forms
use websockethub.Widget.Incoming.{handle_incoming_message}
use websockethub.Widget.Main.{line_at}

-- The parts of the state that the phase is told from.
pub record SameCore (w v : Widget) : Type 0 where
  pub ws : v.ws ≡ w.ws
  pub can_send : v.can_send ≡ w.can_send
  pub onquit : v.onquit ≡ w.onquit
  pub widget_node : v.widget_node ≡ w.widget_node
  pub attached : v.attached ≡ w.attached
  pub socket : v.socket ≡ w.socket

pub nick-SameCore : (host : Host) (arg : Option Text) (w : Widget) → SameCore w (nick host arg w).1
unfolding nick log_to_user
nick-SameCore host arg w = ground arith

pub config-SameCore : (w : Widget) → SameCore w (config w).1
unfolding config
config-SameCore w = ground arith

pub about-SameCore : (host : Host) (w : Widget) → SameCore w (about host w).1
unfolding about
about-SameCore host w = ground arith

pub help-SameCore : (host : Host) (w : Widget) → SameCore w (help host w).1
unfolding help log_to_user
help-SameCore host w = ground arith

pub quit_delay-SameCore :
    (host : Host) (arg : Option Text) (w : Widget) → SameCore w (quit_delay host arg w).1
unfolding quit_delay
quit_delay-SameCore host arg w = ground arith

pub handle_incoming_message-SameCore :
    (host : Host) (txt : Text) (w : Widget) → SameCore w (handle_incoming_message host txt w).1
unfolding handle_incoming_message
handle_incoming_message-SameCore host txt w = ground arith

pub onclose-SameCore : (host : Host) (e : CloseEvent) (w : Widget) → SameCore w (onclose host e w).1
unfolding onclose log_to_user
onclose-SameCore host e w = ground arith

pub submit_name-SameCore : (host : Host) (w : Widget) → SameCore w (Forms.submit_name host w).1
unfolding Forms.submit_name
submit_name-SameCore host w = ground arith

pub click_minifier-SameCore :
    (host : Host) (w : Widget) → SameCore w (Forms.click_minifier host w).1
unfolding Forms.click_minifier
click_minifier-SameCore host w = ground arith

pub run_handler-SameCore :
    (host : Host) (h : Handler) (arg : Option Text) (w : Widget)
    → SameCore w (run_handler host h arg w).1
unfolding run_handler
run_handler-SameCore host nick_handler arg w = nick-SameCore host arg w
run_handler-SameCore host config_handler arg w = config-SameCore w
run_handler-SameCore host about_handler arg w = about-SameCore host w
run_handler-SameCore host quit_handler arg w = quit_delay-SameCore host arg w
run_handler-SameCore host help_handler arg w = help-SameCore host w
run_handler-SameCore host idle_function arg w = ground arith
run_handler-SameCore host throwing_value arg w = ground arith

pub handle_command-SameCore :
    (host : Host) (cmd : Text) (arg : Option Text) (w : Widget)
    → SameCore w (handle_command host cmd arg w).1
unfolding handle_command
handle_command-SameCore host cmd arg w = elim (Option-cases (handler_of cmd)) [
  | inl n ↦ rw (n, handle_command) (ground arith)
  | inr (h, e) ↦ rw (e, handle_command) (run_handler-SameCore host h arg w)
]

pub submit_message-SameCore :
    (host : Host) (w : Widget)
    → SameCore (handle_message_input host w.mesg_value w).1 (Forms.submit_message host w).1
unfolding Forms.submit_message log_to_user
submit_message-SameCore host w = ground arith

-- A round of a countdown leaves the core alone, or ends by leaving the room.
pub data TickCore (host : Host) (i : ℕ) (w : Widget) : Type 0 where
  waits : SameCore w (tick host i w).1 → TickCore host i w
  quits :
      (v : Widget) → SameCore w v → (tick host i w).1 ≡ (quit_immediately v).1 → TickCore host i w

pub count_down-TickCore :
    (host : Host) (i : ℕ) (c : State.Countdown) (w : Widget)
    → countdown_at i w ≡ some (some c)
    → TickCore host i w
unfolding tick
count_down-TickCore host i c w e =
    elim (Bool-cases (is_num 0 (minus_one host.odd_minus_one c.seconds))) [
      | inl z ↦
          quits (record w { countdowns = set_countdown i none w.countdowns }) (ground arith)
            (rw (e, tick) (rw (z, tick) refl))
      | inr n ↦ waits (rw (e, tick) (rw (n, tick) (ground arith)))
    ]

pub tick-TickCore : (host : Host) (i : ℕ) (w : Widget) → TickCore host i w
unfolding tick
tick-TickCore host i w = elim (Option-cases (countdown_at i w)) [
  | inl n ↦ waits (rw (n, tick) (ground arith))
  | inr (none, n) ↦ waits (rw (n, tick) (ground arith))
  | inr (some c, e) ↦ count_down-TickCore host i c w e
]

pub onerror-SameCore : (w : Widget) → SameCore w (onerror w).1
unfolding onerror
onerror-SameCore w = ground arith

pub line_at-SameCore :
    (o : Option Socket) (host : Host) (txt : Text) (w : Widget)
    → SameCore w (line_at o (handle_incoming_message host txt) w).1
line_at-SameCore none host txt w = ground arith
line_at-SameCore (some s) host txt w = ground (arith, handle_incoming_message-SameCore host txt w)
