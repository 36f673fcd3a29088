-- ===== src/Widget/Connection.antt =====
-- The connection to the hub: `connectWebsocket` of static/chatroomwidget.js and the handlers that
-- it sets, with what the browser's socket does before each of them.
use websockethub.Base.{ℕ, Bool, true, false, none, some, [], ◌∷◌, ◌++◌, if◌then◌else◌}
use websockethub.Text.{Text, text, decimal}
use websockethub.Host.{Host}
use websockethub.Widget.State.{
  ConnState, connected, closed, starting, Level, info, M, Do, change, ok, ◌>>=◌, ◌>>◌,
}
use websockethub.Widget.Log.{show_log}

-- The event that ends a connection, or the error that the constructor throws.
pub record CloseEvent : Type 0 where
  pub reason : Text
  pub code : ℕ
  pub was_clean : Bool

abbrev pub reason_text : Text → Text
reason_text [] = text "disconnected"
reason_text (c ∷ s) = c ∷ s

-- The message without and with the mark of an error.
abbrev pub close_text : CloseEvent → Text
close_text e = reason_text e.reason ++ (text " [" ++ (decimal e.code ++ text "]"))

abbrev pub close_msg : CloseEvent → Text
close_msg e = if e.was_clean then close_text e else text "error: " ++ close_text e

abbrev pub close_level : CloseEvent → Level
close_level e = if e.was_clean then info else Level.error

abbrev pub set_connection_msg : Text → Do
set_connection_msg msg = change λ w. record w { conn_msg = msg }

abbrev pub closed_state : ConnState → ConnState
closed_state connected = closed
closed_state s = s

unfoldable pub onopen : Do
onopen = change λ w. record w { conn_state = connected; conn_msg = text "connected" }

unfoldable pub onerror : Do
onerror = change λ w. record w { conn_state = ConnState.error }

unfoldable pub onclose : Host → CloseEvent → Do
onclose host e =
    change (λ w. record w { conn_state = closed_state w.conn_state })
    >> (show_log host (close_msg e) (close_level e) >> set_connection_msg (close_msg e))

abbrev pub refused : Text × ℕ → CloseEvent
refused (msg, code) = record { reason = msg; code = code; was_clean = false }

-- Whether there is a socket now.
unfoldable pub connect_websocket : Host → Text → M Bool
unfolding onerror onclose
connect_websocket host url = elim (host.refusal url) [
  | some e ↦ onerror >> (onclose host (refused e) >>= λ _ w. (ok false, w))
  | none ↦ λ w. (ok true, record w { socket = some (record { ready = starting; sent = [] }) })
]
