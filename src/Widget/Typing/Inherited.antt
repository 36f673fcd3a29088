-- ===== src/Widget/Typing/Inherited.antt =====
-- Commands that `commandHandlers` of static/chatroomwidget.js only inherits from its prototype.
use websockethub.Base.{
  ◌≡◌, refl, sym, ◌∙◌, ◌≢◌, ◌⊎◌, inl, inr, true, Option, none, some, List, [], ◌∷◌, ◌++◌, arith,
  Bool-cases, Option-cases, All,
}
use mathlib.Core.Path.{subst}
use websockethub.Text.{Text, text_eq}
use websockethub.Host.{Host}
use websockethub.Links.{escape_html}
use websockethub.Widget.State.{Widget, log, Level}
use websockethub.Widget.Log.{log_to_user, to_bottom, append_entry}
use websockethub.Widget.Commands.{
  parse_command, Handler, idle_function, throwing_value, find_handler, handler_of, command_table,
  prototype_table, handle_message_input, handle_command,
}
use websockethub.Widget.Forms.{submit_message}

find_handler-append :
    (cmd : Text) (hs ks : List (Text × Handler))
    → find_handler cmd hs ≡ none
    → find_handler cmd (hs ++ ks) ≡ find_handler cmd ks
unfolding find_handler
find_handler-append cmd [] ks e = refl
find_handler-append cmd ((name, h) ∷ hs) ks e = elim (Bool-cases (text_eq cmd name)) [
  | inl y ↦ absurd (ground arith)
  | inr n ↦ rw n (find_handler-append cmd hs ks (ground arith))
]

find_handler-All :
    (P : Handler → Type 0) (cmd : Text) (hs : List (Text × Handler)) (h : Handler)
    → All (λ (p : Text × Handler). P p.1) hs
    → find_handler cmd hs ≡ some h
    → P h
unfolding find_handler
find_handler-All P cmd [] h k e = absurd (cc)
find_handler-All P cmd ((name, g) ∷ hs) h (k, ks) e = elim (Bool-cases (text_eq cmd name)) [
  | inl y ↦ subst P (ground arith) k
  | inr n ↦ find_handler-All P cmd hs h ks (ground arith)
]

abbrev IsInherited : Handler → Type 0
IsInherited h = (h ≡ idle_function) ⊎ (h ≡ throwing_value)

prototype_table-IsInherited : All (λ (p : Text × Handler). IsInherited p.1) prototype_table
prototype_table-IsInherited =
    let idle : IsInherited idle_function = inl refl in
    let throwing : IsInherited throwing_value = inr refl in
    (
      idle,
      (
        idle,
        (
          idle,
          (
            throwing,
            (
              throwing,
              (
                throwing,
                (throwing, (throwing, (throwing, (throwing, (throwing, (throwing, tt)))))),
              ),
            ),
          ),
        ),
      ),
    )

handler_of-IsInherited :
    (cmd : Text) (h : Handler)
    → find_handler cmd command_table ≡ none
    → handler_of cmd ≡ some h
    → IsInherited h
handler_of-IsInherited cmd h e k =
    find_handler-All IsInherited cmd prototype_table h prototype_table-IsInherited
      (sym (find_handler-append cmd command_table prototype_table e) ∙ k)

-- A command that is not in the table, but that every object has a property for, is not answered by
-- the error for unknown commands. Either nothing happens but that the input is emptied, or the
-- engine's own error is shown, at the end of the scrolled list, and nothing else changes.
pub submit_message-inherited :
    (host : Host) (w : Widget) (cmd : Text) (arg : Option Text)
    → w.attached ≡ true
    → parse_command w.mesg_value ≡ some (cmd, arg)
    → find_handler cmd command_table ≡ none
    → handler_of cmd ≢ none
    → ((submit_message host w).1 ≡ record w { mesg_value = [] })
      ⊎ ((submit_message host w).1
          ≡ to_bottom host (append_entry (log Level.error (escape_html host.native_error)) w))
unfolding submit_message handle_message_input handle_command log_to_user
submit_message-inherited host w cmd arg a e n k = elim (Option-cases (handler_of cmd)) [
  | inl h ↦ absurd (k h)
  | inr (h, f) ↦ elim (handler_of-IsInherited cmd h n f) [
    | inl i ↦ inl (ground arith)
    | inr t ↦ inr (ground arith)
  ]
]
