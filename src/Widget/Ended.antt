-- ===== src/Widget/Ended.antt =====
-- How the handling of a line that the user types ends (static/chatroomwidget.js).
use websockethub.Base.{
  ◌≡◌, refl, ◌⊎◌, inl, inr, true, Option, none, some, [], ◌∷◌, arith, Bool-cases, Option-cases,
}
use websockethub.Text.{Text, text}
use websockethub.Host.{Host}
use websockethub.Message.{message_line}
use websockethub.Widget.State.{Widget, ok, thrown, Thrown, Outcome, native, message}
use websockethub.Widget.Log.{log_to_user, about}
use websockethub.Widget.Quit.{quit_delay}
use websockethub.Widget.Commands.{
  parse_command, handler_of, unknown_command, handle_message_input, send_message, send_on,
  handle_command, run_handler, nick, config, help, Handler, nick_handler, config_handler,
  about_handler, quit_handler, help_handler, idle_function, throwing_value,
}

-- What a line that the user types has come to: no error, or an error and no other change.
abbrev pub Ended : Widget → Outcome (Unit {0}) × Widget → Type 0
Ended w r = (r.0 ≡ ok tt) ⊎ ((e : Thrown) × (r ≡ (thrown e, w)))

run_handler-Ended :
    (host : Host) (h : Handler) (arg : Option Text) (w : Widget)
    → w.attached ≡ true
    → Ended w (run_handler host h arg w)
unfolding run_handler nick config about quit_delay help log_to_user
run_handler-Ended host nick_handler none w a = inl (ground arith)
run_handler-Ended host nick_handler (some []) w a = inl (ground arith)
run_handler-Ended host nick_handler (some (c ∷ name)) w a = inl refl
run_handler-Ended host config_handler arg w a = inl (ground arith)
run_handler-Ended host about_handler arg w a = inl (ground arith)
run_handler-Ended host quit_handler arg w a = inl (ground arith)
run_handler-Ended host help_handler arg w a = inl (ground arith)
run_handler-Ended host idle_function arg w a = inl refl
run_handler-Ended host throwing_value arg w a = inr (native, refl)

handle_command-Ended :
    (host : Host) (cmd : Text) (arg : Option Text) (w : Widget)
    → w.attached ≡ true
    → Ended w (handle_command host cmd arg w)
unfolding handle_command
handle_command-Ended host cmd arg w a = elim (Option-cases (handler_of cmd)) [
  | inl n ↦ rw (n, handle_command) (inr (message (unknown_command cmd), refl))
  | inr (h, e) ↦ rw (e, handle_command) (run_handler-Ended host h arg w a)
]

send_message-Ended : (txt : Text) (w : Widget) → Ended w (send_message txt w)
unfolding send_message
send_message-Ended txt w = elim (Bool-cases w.can_send) [
  | inr n ↦
      rw (n, send_message) (inr (message (text "sendMessage not set to custom function yet"), refl))
  | inl y ↦ elim (Bool-cases w.ws) [
    | inr n ↦ rw (y, send_message) (rw n (inr (native, refl)))
    | inl z ↦
        rw (y, send_message)
          (rw z (elim (Option-cases w.socket) [
            | inl n ↦ rw n (inr (native, refl))
            | inr (s, e) ↦ rw e (elim (Option-cases (send_on s (message_line w.myname txt))) [
              | inl n ↦ rw n (inr (native, refl))
              | inr (v, f) ↦ rw f (inl refl)
            ])
          ]))
  ]
]

pub handle_message_input-Ended :
    (host : Host) (txt : Text) (w : Widget)
    → w.attached ≡ true
    → Ended w (handle_message_input host txt w)
unfolding handle_message_input
handle_message_input-Ended host txt w a = elim (Option-cases (parse_command txt)) [
  | inl n ↦ rw (n, handle_message_input) (send_message-Ended txt w)
  | inr ((cmd, arg), e) ↦ rw (e, handle_message_input) (handle_command-Ended host cmd arg w a)
]
