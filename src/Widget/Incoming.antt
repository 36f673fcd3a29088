-- ===== src/Widget/Incoming.antt =====
-- A line from the room: `handleIncomingMessage` of static/chatroomwidget.js.
use websockethub.Base.{Bool, Option, none, some, ◌++◌, if◌then◌else◌}
use websockethub.Text.{Text, text}
use websockethub.Host.{Host}
use websockethub.Links.{escape_html, urlify}
use websockethub.Message.{split_line, highlight}
use websockethub.Title.{announce_message}
use websockethub.Widget.State.{Entry, chat, Do, change, raise, native, ◌>>◌}
use websockethub.Widget.Log.{show_message}

-- The element for a line, if the expression for the nickname can be made.
abbrev pub chat_entry : Text → Text → Bool → Entry
chat_entry name message highlighted =
    chat (name ++ text ":") (urlify (escape_html message)) highlighted

-- The title starts to blink if the page is hidden.
unfoldable pub blink : Do
blink = change λ w. if w.hidden then record w { title = announce_message w.title } else w

show_line : Host → Text × Text → Option Bool → Do
unfolding show_message blink
show_line host line none = raise native
show_line host (name, message) (some highlighted) =
    show_message host (chat_entry name message highlighted) >> blink

unfoldable pub handle_incoming_message : Host → Text → Do
unfolding show_line
handle_incoming_message host txt w =
    let line = split_line txt in show_line host line (highlight host w.myname line.0 line.1) w
