-- ===== src/Url.antt =====
-- The address of a room: `getDocumentLoc` and `getWebsocketUrl` of static/chatroomwidget.js.
pub mod Encoding
pub mod Decoding
pub mod Room
use websockethub.Base.{Bool, Option, none, some, [], ◌∷◌, ◌++◌, if◌then◌else◌}
use websockethub.Text.{Text, text, text_eq}
use Encoding.{encode_uri_component}

-- What the script reads of the page: the `href` of its canonical link, `window.location`.
pub record Page : Type 0 where
  pub canonical : Option Text
  pub origin : Text
  pub pathname : Text
  pub protocol : Text

-- The keys of the configuration that the script reads; a missing one is `none`, and of `useTLS`
-- only the truth value counts.
pub record Config : Type 0 where
  pub use_tls : Option Bool
  pub websockethost : Option Text
  pub room : Option Text
  pub websocketpath : Option Text

abbrev pub no_config : Config
no_config = record { use_tls = none; websockethost = none; room = none; websocketpath = none }

-- `value || otherwise`: the empty text is replaced too.
abbrev pub or_default : Option Text → Text → Text
or_default none d = d
or_default (some []) d = d
or_default (some (c ∷ s)) d = c ∷ s

unfoldable pub get_document_loc : Page → Text
get_document_loc page = elim page.canonical [
  | some href ↦ href
  | none ↦ page.origin ++ page.pathname
]

abbrev pub given : Option Config → Config
given none = no_config
given (some c) = c

abbrev pub wants_tls : Config → Page → Bool
wants_tls c page = elim c.use_tls [ none ↦ text_eq page.protocol (text "https:") | some b ↦ b ]

abbrev pub room_of : Config → Page → Text
room_of c page = or_default c.room (get_document_loc page)

-- The address before the room.
abbrev pub hub_address : Config → Page → Text
hub_address c page =
    (if wants_tls c page then text "wss:" else text "ws:")
    ++ (text "//"
        ++ (or_default c.websockethost (text "hub.websockethub.com")
            ++ (or_default c.websocketpath (text "/hub") ++ text "?room=")))

with_room : Text → Option Text → Option Text
with_room address none = none
with_room address (some room) = some (address ++ room)

-- `none` is the `URIError` of a room that is no well-formed text.
unfoldable pub get_websocket_url : Option Config → Page → Option Text
unfolding with_room encode_uri_component
get_websocket_url config page =
    let c = given config in with_room (hub_address c page) (encode_uri_component (room_of c page))
