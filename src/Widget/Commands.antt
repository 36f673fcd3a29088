-- ===== src/Widget/Commands.antt =====
-- The line that a user types: `handleMessageInput`, `handleCommand` and `commandHandlers` of
-- static/chatroomwidget.js, and the functions to which `sendMessage` is set.
use websockethub.Base.{ℕ, Bool, not, Option, none, some, List, [], ◌∷◌, ◌++◌, ◌==◌, if◌then◌else◌}
use websockethub.Text.{Text, text, text_eq, is_word, is_line_end}
use websockethub.Host.{Host}
use websockethub.Names.{set_cached_name_safe}
use websockethub.Message.{name_text, message_line}
use websockethub.Widget.State.{
  Widget, Socket, starting, opened, closing, gone, info, Do, done, change, raise, message, native,
  ok, thrown, Outcome, config_mode, add_class, ◌>>◌,
}
use websockethub.Widget.Log.{show_log, about}
use websockethub.Widget.Quit.{quit_delay}

-- The longest run of units in a class, and what follows it.
unfoldable pub span : (ℕ → Bool) → Text → Text × Text
span p [] = ([], [])
span p (c ∷ s) = let (w, rest) = span p s in if p c then (c ∷ w, rest) else ([], c ∷ s)

-- `(?: (.*))?`
unfoldable pub argument : Text → Option Text
unfolding span is_line_end
argument [] = none
argument (c ∷ s) = if c == b' ' then some (span (λ a. not (is_line_end a)) s).0 else none

command_from : Text × Text → Option (Text × Option Text)
unfolding argument
command_from ([], rest) = none
command_from (c ∷ w, rest) = some (c ∷ w, argument rest)

-- `/^\/(\w+)(?: (.*))?/.exec(txt)`: the two groups.
unfoldable pub parse_command : Text → Option (Text × Option Text)
unfolding span is_word command_from
parse_command [] = none
parse_command (c ∷ s) = if c == b'/' then command_from (span is_word s) else none

-- `setName`
unfoldable pub set_name : Host → Text → Do
unfolding set_cached_name_safe
set_name host name =
    change λ w. record w { myname = some name; stored = set_cached_name_safe host name w.stored }

unfoldable pub nick : Host → Option Text → Do
unfolding set_name
nick host newname w = elim newname [
  | some (c ∷ name) ↦ set_name host (c ∷ name) w
  | _ ↦ show_log host (text "Your nickname: " ++ name_text w.myname) info w
]

-- The document finds the widget's node by its id.
unfoldable pub config : Do
config w =
    if w.attached
    then (ok tt, record w { classes = add_class config_mode w.classes })
    else (thrown native, w)

unfoldable pub help : Host → Do
unfolding about
help host =
    about host >> show_log host (text "Available commands: /nick, /config, /about, /quit") info

-- What `commandHandlers[cmd]` is. An object has the properties of `Object.prototype` too: some are
-- functions that do nothing when they are called like this, others throw, as does calling
-- `__proto__`, which is no function.
pub data Handler : Type 0 where
  nick_handler config_handler about_handler quit_handler help_handler : Handler
  idle_function throwing_value : Handler

abbrev pub command_table : List (Text × Handler)
command_table =
    (text "nick", nick_handler)
    ∷ (text "config", config_handler)
    ∷ (text "about", about_handler)
    ∷ (text "quit", quit_handler)
    ∷ (text "exit", quit_handler)
    ∷ (text "help", help_handler)
    ∷ []

abbrev pub prototype_table : List (Text × Handler)
prototype_table =
    (text "constructor", idle_function)
    ∷ (text "isPrototypeOf", idle_function)
    ∷ (text "toString", idle_function)
    ∷ (text "hasOwnProperty", throwing_value)
    ∷ (text "propertyIsEnumerable", throwing_value)
    ∷ (text "toLocaleString", throwing_value)
    ∷ (text "valueOf", throwing_value)
    ∷ (text "__defineGetter__", throwing_value)
    ∷ (text "__defineSetter__", throwing_value)
    ∷ (text "__lookupGetter__", throwing_value)
    ∷ (text "__lookupSetter__", throwing_value)
    ∷ (text "__proto__", throwing_value)
    ∷ []

unfoldable pub find_handler : Text → List (Text × Handler) → Option Handler
find_handler cmd [] = none
find_handler cmd ((name, h) ∷ hs) = if text_eq cmd name then some h else find_handler cmd hs

abbrev pub handler_of : Text → Option Handler
handler_of cmd = find_handler cmd (command_table ++ prototype_table)

unfoldable pub run_handler : Host → Handler → Option Text → Do
unfolding nick config about quit_delay help
run_handler host nick_handler arg = nick host arg
run_handler host config_handler arg = config
run_handler host about_handler arg = about host
run_handler host quit_handler arg = quit_delay host arg
run_handler host help_handler arg = help host
run_handler host idle_function arg = done
run_handler host throwing_value arg = raise native

abbrev pub unknown_command : Text → Text
unknown_command cmd = text "unknown command: " ++ (cmd ++ text " (try /help)")

unfoldable pub handle_command : Host → Text → Option Text → Do
unfolding find_handler run_handler
handle_command host cmd arg = elim (handler_of cmd) [
  | none ↦ raise (message (unknown_command cmd))
  | some h ↦ run_handler host h arg
]

-- `ws.send(line)`: an error while the socket is being opened, and no effect once it is closed.
abbrev pub send_on : Socket → Text → Option Socket
send_on s line = elim s.ready [
  | starting ↦ none
  | opened ↦ some (record s { sent = s.sent ++ line ∷ [] })
  | closing ↦ some s
  | gone ↦ some s
]

with_sent : Widget → Option Socket → Outcome (Unit {0}) × Widget
with_sent w none = (thrown native, w)
with_sent w (some s) = (ok tt, record w { socket = some s })

send_line : Text → Widget → Option Socket → Outcome (Unit {0}) × Widget
unfolding with_sent
send_line line w none = (thrown native, w)
send_line line w (some s) = with_sent w (send_on s line)

-- `sendMessage`, before and after `chatroomwidget_main_aux` has replaced it.
unfoldable pub send_message : Text → Do
unfolding send_line
send_message txt w =
    if w.can_send
    then if w.ws then send_line (message_line w.myname txt) w w.socket else (thrown native, w)
    else (thrown (message (text "sendMessage not set to custom function yet")), w)

unfoldable pub handle_message_input : Host → Text → Do
unfolding parse_command handle_command send_message
handle_message_input host txt = elim (parse_command txt) [
  | none ↦ send_message txt
  | some (cmd, arg) ↦ handle_command host cmd arg
]
