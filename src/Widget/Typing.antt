-- ===== src/Widget/Typing.antt =====
-- What becomes of a line that the user types (static/chatroomwidget.js): a command or a message.
pub mod Inherited
use websockethub.Base.{
  ℕ, ◌≡◌, refl, ◌∙◌, ap, ◌↔◌, ◌⊎◌, inl, inr, Bool, true, false, not, Option, none, some, [], ◌∷◌,
  ◌++◌, arith, Bool-cases, Option-cases, ◌==◌, All, if◌then◌else◌,
}
use websockethub.Text.{Text, text, is_word, is_line_end}
use websockethub.Host.{Host}
use websockethub.Links.{escape_html}
use websockethub.Message.{message_line}
use websockethub.Widget.State.{Widget, Socket, opened, log, Level, ok, thrown, Thrown}
use websockethub.Widget.Log.{log_to_user, thrown_text, append_entry, to_bottom}
use websockethub.Widget.Commands.{
  span, parse_command, handler_of, unknown_command, handle_message_input, send_message,
}
use websockethub.Widget.Forms.{submit_message}
use websockethub.Widget.Ended.{handle_message_input-Ended}
use websockethub.Widget.Core.{handle_command-SameCore}

-- A slash with a letter, a digit or an underscore behind it.
abbrev pub IsCommand : Text → Type 0
IsCommand [] = ⊥
IsCommand (c ∷ []) = ⊥
IsCommand (c ∷ d ∷ s) = (c ≡ b'/') × (is_word d ≡ true)

-- The expression for commands matches exactly the lines that begin like one.
parse_command-none_iff : (txt : Text) → (parse_command txt ≡ none) ↔ (¬ IsCommand txt)
unfolding parse_command
parse_command-none_iff [] = ground arith
parse_command-none_iff (c ∷ []) = ground arith
parse_command-none_iff (c ∷ d ∷ s) = elim (Bool-cases (c == b'/')) [
  | inr n ↦ ground arith
  | inl y ↦ elim (Bool-cases (is_word d)) [ inl a ↦ ground arith | inr b ↦ ground arith ]
]

-- A line that is no command, typed while the socket is open, is sent to the room behind the
-- nickname, after all that was sent before, and the input is emptied. Nothing is shown yet.
pub submit_message-sends :
    (host : Host) (w : Widget) (s : Socket)
    → ¬ IsCommand w.mesg_value
    → w.can_send ≡ true
    → w.ws ≡ true
    → w.socket ≡ some s
    → s.ready ≡ opened
    → ((submit_message host w).1.socket
        ≡ some (record s { sent = s.sent ++ message_line w.myname w.mesg_value ∷ [] }))
      × ((submit_message host w).1.mesg_value ≡ [])
      × ((submit_message host w).1.entries ≡ w.entries)
unfolding submit_message send_message
submit_message-sends host w s no_command a b c d =
    let e : parse_command w.mesg_value ≡ none =
      (parse_command-none_iff w.mesg_value).1 no_command in
    (ground arith, ground arith, ground arith)

-- A command is never sent to the room, whether it exists or not and whether it fails or not.
pub submit_message-command :
    (host : Host) (w : Widget)
    → IsCommand w.mesg_value
    → (submit_message host w).1.socket ≡ w.socket
unfolding submit_message log_to_user
submit_message-command host w is_command = elim (Option-cases (parse_command w.mesg_value)) [
  | inl n ↦ absurd ((parse_command-none_iff w.mesg_value).0 n is_command)
  | inr ((cmd, arg), e) ↦ ground (arith, handle_command-SameCore host cmd arg w)
]

-- While the widget stands in the page, the handling of a line that the user types either ends
-- without an error, and then the form does no more than to empty the input; or it ends with one,
-- and then nothing has changed but that the list of messages shows the error behind the others and
-- is scrolled down: the input still has the line, and no part of the handling has left a trace.
pub submit_message-outcome :
    (host : Host) (w : Widget)
    → w.attached ≡ true
    → (((handle_message_input host w.mesg_value w).0 ≡ ok tt)
        × ((submit_message host w).1
            ≡ record ((handle_message_input host w.mesg_value w).1) { mesg_value = [] }))
      ⊎ ((e : Thrown) × ((handle_message_input host w.mesg_value w).0 ≡ thrown e)
          × ((submit_message host w).1
              ≡ to_bottom host
                  (append_entry (log Level.error (escape_html (thrown_text host e))) w)))
unfolding submit_message log_to_user
submit_message-outcome host w a = elim (handle_message_input-Ended host w.mesg_value w a) [
  | inl h ↦ inl (h, ground arith)
  | inr (e, h) ↦ inr (e, ap (λ r. r.0) h, rw h (rw a refl))
]

-- A command that is neither in the table nor a property that all objects have is answered by an
-- error that names it and points to the help; the input is kept, and the user's name, the socket
-- and the countdowns stay as they are.
pub submit_message-unknown :
    (host : Host) (w : Widget) (cmd : Text) (arg : Option Text)
    → w.attached ≡ true
    → parse_command w.mesg_value ≡ some (cmd, arg)
    → handler_of cmd ≡ none
    → ((submit_message host w).1.entries
        ≡ w.entries ++ log Level.error (escape_html (unknown_command cmd)) ∷ [])
      × ((submit_message host w).1.mesg_value ≡ w.mesg_value)
      × ((submit_message host w).1.myname ≡ w.myname)
      × ((submit_message host w).1.socket ≡ w.socket)
      × ((submit_message host w).1.countdowns ≡ w.countdowns)
unfolding submit_message log_to_user
submit_message-unknown host w cmd arg a e h =
    (ground arith, ground arith, ground arith, ground arith, ground arith)

span-All : (p : ℕ → Bool) (s : Text) → All (λ c. p c ≡ true) s → span p s ≡ (s, [])
unfolding span
span-All p [] h = refl
span-All p (c ∷ s) (h, hs) = rw (h, span-All p s hs) refl

parse_command-nick :
    (name : Text)
    → All (λ c. is_line_end c ≡ false) name
    → parse_command (text "/nick " ++ name) ≡ some (text "nick", some name)
unfolding parse_command
parse_command-nick name h =
    ap (λ (r : Text). some (text "nick", some r))
      (ap (λ (p : Text × Text). p.0) (span-All (λ a. not (is_line_end a)) name (one_line name h)))
  where
    one_line :
        (s : Text) → All (λ c. is_line_end c ≡ false) s → All (λ c. not (is_line_end c) ≡ true) s
    one_line [] _ = tt
    one_line (c ∷ s) (k, ks) = (rw k refl, one_line s ks)

-- `/nick` with a name of one line, which is not empty, makes it the user's name and stores it if
-- the browser lets it. Nothing is sent and nothing is shown.
pub submit_message-nick :
    (host : Host) (w : Widget) (c : ℕ) (name : Text)
    → All (λ d. is_line_end d ≡ false) (c ∷ name)
    → w.mesg_value ≡ text "/nick " ++ (c ∷ name)
    → ((submit_message host w).1.myname ≡ some (c ∷ name))
      × ((submit_message host w).1.stored ≡ (if host.writes then some (c ∷ name) else w.stored))
      × ((submit_message host w).1.socket ≡ w.socket)
      × ((submit_message host w).1.entries ≡ w.entries)
      × ((submit_message host w).1.mesg_value ≡ [])
unfolding submit_message
submit_message-nick host w c name h e =
    let p : parse_command w.mesg_value ≡ some (text "nick", some (c ∷ name)) =
      ap parse_command e ∙ parse_command-nick (c ∷ name) h in
    (ground arith, ground arith, ground arith, ground arith, ground arith)
