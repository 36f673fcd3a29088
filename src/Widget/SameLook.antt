-- ===== src/Widget/SameLook.antt =====
-- What most handlers of static/chatroomwidget.js leave alone: the classes of the widget's node and
-- the marks on its inputs.
use websockethub.Base.{
  ℕ, ◌≡◌, inl, inr, true, false, ◌||◌, Option, none, some, List, [], ◌∷◌, arith, Option-cases,
  Bool-cases,
}
use websockethub.Text.{Text}
use websockethub.Host.{Host}
use websockethub.Host.Numbers.{is_num, minus_one}
use websockethub.Widget.State
use websockethub.Widget.State.{
  Widget, Socket, QuitHandler, close_widget, ok, thrown, Do, mini, config_mode, init_config,
  cleanslate, has_class, add_class, remove_class,
}
use websockethub.Widget.Log.{log_to_user, about}
use websockethub.Widget.Quit
use websockethub.Widget.Quit.{
  countdown_at, set_countdown, quit_delay, tick, quit_immediately, run_handlers,
}
use websockethub.Widget.Commands.{handle_message_input, send_message, nick, help}
use websockethub.Widget.Connection.{onclose, onopen, onerror}
use websockethub.Widget.Connection
use websockethub.Widget.Forms
use websockethub.Widget.Forms.{marked_input}
use websockethub.Widget.Incoming.{handle_incoming_message}
use websockethub.Widget.Main.{set_ready, end_at, open_at, line_at}
use websockethub.Widget.Classes.{IsStyled}

pub record IsLook (w : Widget) : Type 0 where
  pub styled : IsStyled w
  pub focusable : w.attached ≡ true → (w.name_marked || w.mesg_marked) ≡ true

-- Nothing of the look changes, and the node does not come into the page.
pub record SameLook (w v : Widget) : Type 0 where
  pub classes : v.classes ≡ w.classes
  pub name_marked : v.name_marked ≡ w.name_marked
  pub mesg_marked : v.mesg_marked ≡ w.mesg_marked
  pub attached : v.attached ≡ true → w.attached ≡ true

pub IsLook-SameLook : (w v : Widget) → SameLook w v → IsLook w → IsLook v
IsLook-SameLook w v s l = record {
  styled = rw (s.classes) l.styled;
  focusable = λ a. rw (s.name_marked, s.mesg_marked) (l.focusable (s.attached a));
}

pub SameLook-trans : (u v w : Widget) → SameLook u v → SameLook v w → SameLook u w
SameLook-trans u v w s t = record {
  classes = cc (s.classes, t.classes);
  name_marked = cc (s.name_marked, t.name_marked);
  mesg_marked = cc (s.mesg_marked, t.mesg_marked);
  attached = λ a. s.attached (t.attached a);
}

pub nick-SameLook : (host : Host) (arg : Option Text) (w : Widget) → SameLook w (nick host arg w).1
unfolding nick log_to_user
nick-SameLook host arg w = ground arith

pub about-SameLook : (host : Host) (w : Widget) → SameLook w (about host w).1
unfolding about
about-SameLook host w = ground arith

pub help-SameLook : (host : Host) (w : Widget) → SameLook w (help host w).1
unfolding help log_to_user
help-SameLook host w = ground arith

pub quit_delay-SameLook :
    (host : Host) (arg : Option Text) (w : Widget) → SameLook w (quit_delay host arg w).1
unfolding quit_delay
quit_delay-SameLook host arg w = ground arith

pub send_message-SameLook : (txt : Text) (w : Widget) → SameLook w (send_message txt w).1
unfolding send_message
send_message-SameLook txt w = ground arith

pub handle_incoming_message-SameLook :
    (host : Host) (txt : Text) (w : Widget) → SameLook w (handle_incoming_message host txt w).1
unfolding handle_incoming_message
handle_incoming_message-SameLook host txt w = ground arith

pub onclose-SameLook :
    (host : Host) (e : Connection.CloseEvent) (w : Widget) → SameLook w (onclose host e w).1
unfolding onclose log_to_user
onclose-SameLook host e w = ground arith

pub submit_message-SameLook :
    (host : Host) (w : Widget)
    → SameLook (handle_message_input host w.mesg_value w).1 (Forms.submit_message host w).1
unfolding Forms.submit_message log_to_user
submit_message-SameLook host w = ground arith

pub run_handlers-SameLook : (hs : List QuitHandler) (w : Widget) → SameLook w (run_handlers hs w).1
unfolding run_handlers
run_handlers-SameLook [] w = ground arith
run_handlers-SameLook (close_widget ∷ hs) w = ground (
  arith,
  run_handlers-SameLook hs (record w {
    ws = false;
    socket = Quit.close_option w.socket;
    widget_node = false;
    attached = false;
  }),
)

pub quit_immediately-SameLook : (w : Widget) → SameLook w (quit_immediately w).1
unfolding quit_immediately
quit_immediately-SameLook w = elim (Option-cases w.onquit) [
  | inl n ↦ ground arith
  | inr (hs, e) ↦ ground (arith, run_handlers-SameLook hs w)
]

pub count_down-SameLook :
    (host : Host) (i : ℕ) (c : State.Countdown) (w : Widget)
    → countdown_at i w ≡ some (some c)
    → SameLook w (tick host i w).1
unfolding tick
count_down-SameLook host i c w e =
    elim (Bool-cases (is_num 0 (minus_one host.odd_minus_one c.seconds))) [
      | inl z ↦
          rw (e, tick)
            (rw (z, tick)
              (SameLook-trans w (cleared i w) (quit_immediately (cleared i w)).1 (ground arith)
                (quit_immediately-SameLook (cleared i w))))
      | inr n ↦ rw (e, tick) (rw (n, tick) (ground arith))
    ]
  where
    cleared : ℕ → Widget → Widget
    cleared i w = record w { countdowns = set_countdown i none w.countdowns }

pub tick-SameLook : (host : Host) (i : ℕ) (w : Widget) → SameLook w (tick host i w).1
unfolding tick
tick-SameLook host i w = elim (Option-cases (countdown_at i w)) [
  | inl n ↦ rw (n, tick) (ground arith)
  | inr (none, n) ↦ rw (n, tick) (ground arith)
  | inr (some c, e) ↦ count_down-SameLook host i c w e
]

pub end_at-SameLook :
    (o : Option Socket) (handler : Do) (w : Widget)
    → ((v : Widget) → SameLook v (handler v).1)
    → SameLook w (end_at o handler w).1
end_at-SameLook none handler w same = ground arith
end_at-SameLook (some s) handler w same =
    let v = set_ready State.gone w in SameLook-trans w v (handler v).1 (ground arith) (same v)

pub onerror-SameLook : (w : Widget) → SameLook w (onerror w).1
unfolding onerror
onerror-SameLook w = ground arith

pub open_at-SameLook : (o : Option Socket) (w : Widget) → SameLook w (open_at o onopen w).1
unfolding onopen
open_at-SameLook o w = ground arith

pub line_at-SameLook :
    (o : Option Socket) (host : Host) (txt : Text) (w : Widget)
    → SameLook w (line_at o (handle_incoming_message host txt) w).1
line_at-SameLook none host txt w = ground arith
line_at-SameLook (some s) host txt w = ground (arith, handle_incoming_message-SameLook host txt w)
