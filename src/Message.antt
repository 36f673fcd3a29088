-- ===== src/Message.antt =====
-- The line that a widget sends to its room, and what another widget reads in it: the function that
-- `chatroomwidget_main_aux` of static/chatroomwidget.js stores in `sendMessage`, and the first
-- lines of `handleIncomingMessage`.
pub mod Laws
pub mod Mentions
use websockethub.Base.{suc, Bool, false, Option, none, some, [], ◌++◌, if◌then◌else◌, take, drop}
use websockethub.Text.{Text, text, text_eq, index_of, drop_last}
use websockethub.Regex.{Regex, test_from}
use websockethub.Host.{Host}

-- `myname` in a string: an unset name reads "undefined".
abbrev pub name_text : Option Text → Text
name_text none = text "undefined"
name_text (some name) = name

-- `myname + ': ' + msg`
unfoldable pub message_line : Option Text → Text → Text
message_line myname msg = name_text myname ++ (text ": " ++ msg)

-- `txt.slice(0, i)` and `txt.slice(i + 1)` for `i = txt.indexOf(':')`, also where that is -1.
unfoldable pub split_line : Text → Text × Text
unfolding index_of drop_last
split_line txt = elim (index_of b':' txt) [
  | none ↦ (drop_last txt, txt)
  | some i ↦ (take i txt, drop (suc i) txt)
]

abbrev pub is_me : Option Text → Text → Bool
is_me none name = false
is_me (some myname) name = text_eq name myname

-- The source of the expression that looks for the nickname in a message.
abbrev pub name_pattern : Option Text → Text
name_pattern myname = text "\\b" ++ (name_text myname ++ text "\\b")

abbrev test_compiled : Option Regex → Text → Option Bool
test_compiled none message = none
test_compiled (some r) message = some (test_from r [] message)

-- Whether a message is highlighted; `none` is the `SyntaxError` of the pattern.
unfoldable pub highlight : Host → Option Text → Text → Text → Option Bool
highlight host myname name message =
    if is_me myname name
    then some false
    else test_compiled (host.compile (name_pattern myname)) message
