-- ===== src/Widget/Main.antt =====
-- Building the widget, `createWidget` and `chatroomwidget_main` of static/chatroomwidget.js on a
-- page without jQuery, and the events that follow.
use websockethub.Base.{ℕ, Bool, true, false, Option, none, some, List, [], ◌∷◌, ◌++◌, if◌then◌else◌}
use mathlib.Core.List.{foldl}
use websockethub.Text.{Text, text}
use websockethub.Host.{Host}
use websockethub.Names.{initial_name}
use websockethub.Url.{Config, Page, get_websocket_url}
use websockethub.Title.{load, become_visible}
use websockethub.Title as TitleBar
use websockethub.Widget.State.{
  Widget, connecting, Socket, Ready, starting, opened, gone, close_widget, M, Do, ok, thrown,
  native, done, change, raise, attempt, cleanslate, config_mode, init_config, add_class, ◌>>=◌,
  ◌>>◌,
}
use websockethub.Scroll.{set_scroll_top}
use websockethub.Widget.Log.{layout_of}
use websockethub.Widget.Quit.{tick}
use websockethub.Widget.Connection.{CloseEvent, onopen, onerror, onclose, connect_websocket}
use websockethub.Widget.Incoming.{handle_incoming_message}
use websockethub.Widget.Forms
use websockethub.Widget.Forms.{click_minifier, to_mini}

-- The script's variables when it starts, on a page with a title and an entry of the storage.
abbrev pub initial : Text → Option Text → Widget
initial page stored = record {
  myname = none;
  stored = stored;
  attached = false;
  classes = [];
  conn_state = connecting;
  conn_msg = [];
  name_value = [];
  mesg_value = [];
  name_marked = false;
  mesg_marked = false;
  focus = none;
  entries = [];
  scroll_top = 0;
  can_send = false;
  ws = false;
  socket = none;
  onquit = some [];
  widget_node = false;
  countdowns = [];
  title = load page;
  hidden = false;
  listens = false;
}

-- `createWidget` with `createConfigScreen`; `widgetNode = node`.
unfoldable pub create_widget : Host → Do
unfolding initial_name
create_widget host = change λ w. record w {
  classes = add_class init_config (add_class cleanslate (add_class config_mode []));
  conn_state = connecting;
  conn_msg = text "connecting...";
  name_value = initial_name host w.stored;
  name_marked = true;
  widget_node = true;
}

-- What follows a successful connection.
abbrev connected_widget : Do
connected_widget w = elim w.onquit [
  | none ↦ (thrown native, record w { ws = true; can_send = true })
  | some hs ↦ (
    ok tt,
    record w {
      ws = true;
      can_send = true;
      onquit = some (hs ++ close_widget ∷ []);
      listens = true;
    },
  )
]

abbrev when_connected : Bool → Do
when_connected true = connected_widget
when_connected false = done

abbrev connect_to : Host → Option Text → M Bool
connect_to host none = raise native
connect_to host (some url) = connect_websocket host url

unfoldable pub main_aux : Host → Option Config → Page → Do
unfolding create_widget to_mini connect_websocket get_websocket_url
main_aux host config page =
    create_widget host
    >> (to_mini
        >> (change (λ w. record w { attached = true })
            >> (connect_to host (get_websocket_url config page) >>= when_connected)))

-- `removeChatroom`: the node leaves the document if it is there.
unfoldable pub remove_chatroom : Do
remove_chatroom =
    change
      λ w. record w { attached = if w.widget_node then false else w.attached; widget_node = false }

-- `chatroomwidget_main`
unfoldable pub main : Host → Option Config → Page → Do
unfolding main_aux remove_chatroom
main host config page = attempt (main_aux host config page) (λ e. remove_chatroom >> raise e)

-- What the user, the browser and the hub do. The user's events carry the text of the input.
pub data Event : Type 0 where
  submit_name submit_message : Text → Event
  click : Event
  opens fails : Event
  closes : CloseEvent → Event
  receives : Text → Event
  second : ℕ → Event
  title_second : Event
  hides shows : Event
  -- the user has scrolled the list of messages so far down
  scrolls : ℕ → Event

abbrev pub set_ready : Ready → Widget → Widget
set_ready r w = record w {
  socket = elim w.socket [ none ↦ none | some s ↦ some (record s { ready = r }) ];
}

-- The end of a connection, at which the socket is closed; without a socket there is none.
abbrev pub end_at : Option Socket → Do → Do
end_at none handler w = (ok tt, w)
end_at (some s) handler w = handler (set_ready gone w)

-- A connection is opened once, unless the script has closed the socket before.
abbrev pub open_at : Option Socket → Do → Do
open_at none handler w = (ok tt, w)
open_at (some s) handler w = elim s.ready [
  | starting ↦ handler (set_ready opened w)
  | _ ↦ (ok tt, w)
]

-- The browser delivers a line only while the socket is open.
abbrev pub line_at : Option Socket → Do → Do
line_at none handler w = (ok tt, w)
line_at (some s) handler w = elim s.ready [ opened ↦ handler w | _ ↦ (ok tt, w) ]

abbrev pub show_page : Widget → Widget
show_page w =
    if w.listens
    then record w { hidden = false; title = become_visible w.title }
    else record w { hidden = false }

unfoldable pub handle : Host → Event → Do
unfolding tick onopen onerror onclose handle_incoming_message
handle host (Event.submit_name txt) w = Forms.submit_name host (record w { name_value = txt })
handle host (Event.submit_message txt) w = Forms.submit_message host (record w { mesg_value = txt })
handle host click w = click_minifier host w
handle host opens w = open_at w.socket onopen w
handle host fails w = end_at w.socket onerror w
handle host (closes e) w = end_at w.socket (onclose host e) w
handle host (receives txt) w = line_at w.socket (handle_incoming_message host txt) w
handle host (second i) w = tick host i w
handle host title_second w = (ok tt, record w { title = TitleBar.tick w.title })
handle host hides w = (ok tt, record w { hidden = true })
handle host shows w = (ok tt, show_page w)
handle host (scrolls top) w =
    (ok tt, record w { scroll_top = set_scroll_top (layout_of host w) top })

-- The state after an event; an error that reaches the browser ends the handler only.
unfoldable pub step : Host → Widget → Event → Widget
unfolding handle
step host w e = (handle host e w).1

abbrev pub run : Host → Widget → List Event → Widget
run host = foldl (step host)

-- The widget of a page, from the start of the script on.
unfoldable pub start : Host → Option Config → Page → Text → Option Text → Widget
unfolding main
start host config page page_title stored = (main host config page (initial page_title stored)).1
