-- ===== src/Widget/Lifecycle.antt =====
-- The phases of a widget of static/chatroomwidget.js: connected, without a connection, left.
pub mod Phases
use websockethub.Base.{inl, inr, Option, List, [], ◌∷◌, arith, Option-cases}
use websockethub.Text.{Text}
use websockethub.Host.{Host}
use websockethub.Url.{Config, Page, get_websocket_url}
use websockethub.Widget.State.{Widget}
use websockethub.Widget.Log.{log_to_user}
use websockethub.Widget.Connection.{onclose, onerror}
use websockethub.Widget.Main.{Event, step, run, start}
use Phases.{Phase, running, unconnected, failed, handle-Phase}

module _ (host : Host) (config : Option Config) (page : Page) (title : Text)
    (stored : Option Text) where
  -- At the start the widget is connected, without a connection or not built.
  start-Phase : Phase (start host config page title stored)
  unfolding start onerror onclose log_to_user
  start-Phase = elim (Option-cases (get_websocket_url config page)) [
    | inl n ↦
        rw (n, start)
          (failed (ground arith) (ground arith) (ground arith) (ground arith) (ground arith)
            (ground arith))
    | inr (url, e) ↦ elim (Option-cases (host.refusal url)) [
      | inl n ↦
          rw (e, start)
            (rw (n, start)
              (running (ground arith) (ground arith) (ground arith) (ground arith) (ground arith)
                (ground arith)))
      | inr (msg, r) ↦
          rw (e, start)
            (rw (r, start)
              (unconnected (ground arith) (ground arith) (ground arith) (ground arith)
                (ground arith) (ground arith)))
    ]
  ]

run-Phase : (host : Host) (es : List Event) (w : Widget) → Phase w → Phase (run host w es)
unfolding step
run-Phase host [] w p = p
run-Phase host (e ∷ es) w p = run-Phase host es (step host w e) (handle-Phase host e w p)

-- Whatever the page, the configuration and the browser are and whatever events follow, the widget
-- is in one of four phases. It is connected: it stands in the page, the script has not closed its
-- socket, and leaving will close the socket and take the widget away, once. Or it stands in the
-- page without a connection. Or the user has left: the socket was closed, the widget is out of the
-- page, and nothing is left to be done. Or it could not be built, and is not in the page.
pub run-start-Phase :
    (host : Host) (config : Option Config) (page : Page) (title : Text) (stored : Option Text)
    (events : List Event)
    → Phase (run host (start host config page title stored) events)
run-start-Phase host config page title stored events =
    run-Phase host events (start host config page title stored)
      (start-Phase host config page title stored)
