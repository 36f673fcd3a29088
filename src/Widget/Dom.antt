-- ===== src/Widget/Dom.antt =====
-- The elements of the widget, as `createWidget`, `createConfigScreen`, `createConnectionMsgNode`,
-- `logToUser` and `handleIncomingMessage` of static/chatroomwidget.js build them and the handlers
-- leave them.
pub mod Display
pub mod Plain
pub mod Shown
pub mod Newcomer
pub mod Tests
use websockethub.Base.{Bool, true, false, List, [], ◌∷◌, ◌++◌, map, if◌then◌else◌}
use websockethub.Text.{Text, text}
use websockethub.Style.{Element, Tree, node, Forest, nil, cons}
use websockethub.Style.Sheet.{named}
use websockethub.Widget.State.{
  Widget, ConnState, connecting, connected, error, closed, Level, Entry, chat, log, id,
}
use websockethub.Widget.Drag.Loader.{Label, make_draggable, loading_scripts, great_success}

-- `document.createElement(tag)`
abbrev pub create_element : Text → Element
create_element tag = record {
  tag = tag;
  id = [];
  classes = [];
  attributes = [];
  content = [];
  value = [];
}

abbrev pub div : Element
div = create_element (text "div")

abbrev pub form : Element
form = create_element (text "form")

abbrev pub paragraph : Text → Element
paragraph t = record (create_element (text "p")) { content = t }

abbrev pub forest : List Tree → Forest
forest [] = nil
forest (t ∷ ts) = cons t (forest ts)

abbrev pub leaf : Element → Tree
leaf e = node e nil

abbrev pub conn_state_text : ConnState → Text
conn_state_text connecting = text "connecting"
conn_state_text connected = text "connected"
conn_state_text error = text "error"
conn_state_text closed = text "closed"

-- An input, and whether it has the class by which the focus finds it.
abbrev pub focus_class : Bool → List Text
focus_class true = named "focusMeOnMaximize" ∷ []
focus_class false = []

abbrev pub input : Text → Bool → Text → Element
input name marked v = record (create_element (text "input")) {
  id = name;
  classes = focus_class marked;
  value = v;
}

-- `createConnectionMsgNode`, with the text of `setConnectionMsg`
abbrev pub connection_msg_node : Text → Element
connection_msg_node msg = record (paragraph msg) { classes = text "connMsg" ∷ [] }

abbrev pub name_form : Text → Bool → Tree
name_form name marked =
    node (record form { id = named "nameForm" })
      (forest (
        leaf (paragraph (text "What nickname do you want?"))
        ∷ leaf (input [] marked name)
        ∷ leaf (record (create_element (text "button")) { content = text "ok" })
        ∷ []))

-- The button, or what it was replaced by.
abbrev pub drag_control : Label → Element
drag_control make_draggable = record (create_element (text "button")) {
  content = text "make draggable";
}
drag_control loading_scripts = record (create_element (text "button")) {
  content = text "loading scripts...";
}
drag_control great_success = paragraph (text "Great success!")

abbrev pub advanced_element : Element
advanced_element = record div { classes = named "advancedConfig" ∷ [] }

abbrev pub advanced_config : Label → Tree
advanced_config label = node advanced_element (forest (leaf (drag_control label) ∷ []))

abbrev pub config_element : Element
config_element = record div { id = named "config" }

abbrev pub config_screen : Text → Bool → Label → Tree
config_screen name marked label =
    node config_element (forest (name_form name marked ∷ advanced_config label ∷ []))

abbrev pub level_text : Level → Text
level_text Level.info = text "info"
level_text Level.error = text "error"

-- An element in the list of messages.
abbrev pub entry_node : Entry → Tree
entry_node (chat name html highlighted) =
    node (record div { classes = if highlighted then named "highlight" ∷ [] else [] })
      (forest (
        leaf (record (create_element (text "span")) { classes = named "name" ∷ []; content = name })
        ∷ leaf (record (create_element (text "span")) { content = html })
        ∷ []))
entry_node (log lvl html) =
    leaf
      (record div { classes = named "log" ∷ (named "log-" ++ level_text lvl) ∷ []; content = html })

abbrev pub messages_element : Element
messages_element = record div { id = named "messages" }

abbrev pub messages_node : List Entry → Tree
messages_node es = node messages_element (forest (map entry_node es))

abbrev pub message_form : Text → Bool → Tree
message_form txt marked = node form (forest (leaf (input (named "input") marked txt) ∷ []))

abbrev pub minifier : Element
minifier = record div { classes = named "minifier" ∷ [] }

abbrev pub root : List Text → ConnState → Element
root classes state = record div {
  id = id;
  classes = classes;
  attributes = (text "data-conn-state", conn_state_text state) ∷ [];
}

-- The widget's node in a state, with the button as it reads.
abbrev pub widget_node : Widget → Label → Tree
widget_node w label = node (root w.classes w.conn_state) (
    forest (
      leaf (connection_msg_node w.conn_msg)
      ∷ config_screen w.name_value w.name_marked label
      ∷ messages_node w.entries
      ∷ message_form w.mesg_value w.mesg_marked
      ∷ leaf minifier
      ∷ []))
