-- ===== src/Hub/Room.antt =====
-- The clients of a room: `handleWebsocket` of hub/groupchatserver.go, with the goroutine for a
-- client's messages that `l_addClient` of hub/chatroom.go starts, and `Close` of hub/client.go. Any
-- number of connections run at the same time, each step one operation of the code on what they
-- share: a counter, the map under its lock, the channel `closed`.
pub mod Invariant
pub mod Joining
pub mod Changes
pub mod Steps
pub mod Runs
pub mod Forgets
pub mod Located
pub mod Closing
pub mod Tests
use websockethub.Base.{ℕ, suc, Bool, true, false, Option, none, some, List, ◌==◌, if◌then◌else◌}
use mathlib.Core.List.{foldl}
use websockethub.Hub.Counter.{inc, dec}

-- Where `handleWebsocket` is, by its next operation, with the id of the client.
pub data Handler : Type 0 where
  -- `cr.numclients.inc()`, `cr.l.clients[id] = c`, `cr.connectedclients.inc()`
  joining : Handler
  inserting listening : ℕ → Handler
  -- `c.readMessage()`; the two operations of `c.Close()`; `cr.l_delClient(id, c)`
  reading checking closing leaving : ℕ → Handler
  left : ℕ → Handler

-- Where the goroutine is that sends the client its messages: it waits for one, drops the client
-- after an error, and then closes it by the same two operations.
pub data Writer : Type 0 where
  unborn : Writer
  sending dropping : ℕ → Writer
  testing shutting ended : Writer

-- One connection. `hangups` is no part of the program: how often `c.raw.Close()` was called.
pub record Session : Type 0 where
  pub handler : Handler
  pub writer : Writer
  pub closed : Bool
  pub hangups : ℕ

-- `chatroom`, with all connections that there will ever be, and the calls of `l_delClient` that
-- `Close` has started, by their ids.
pub record Room : Type 0 where
  pub numclients : ℕ
  pub connectedclients : ℕ
  pub clients : ℕ → Option ℕ
  pub sessions : ℕ → Session
  pub purging : ℕ → Option ℕ
  pub panicked : Bool

module _ {A : Type 0} where
  abbrev pub update : (ℕ → A) → ℕ → A → ℕ → A
  update f k v j = if j == k then v else f j

abbrev pub fresh_session : Session
fresh_session = record { handler = joining; writer = unborn; closed = false; hangups = 0 }

-- `newChatroom`
abbrev pub new_room : Room
new_room = record {
  numclients = 0;
  connectedclients = 0;
  clients = λ i. none;
  sessions = λ k. fresh_session;
  purging = λ i. none;
  panicked = false;
}

abbrev pub set_session : ℕ → Session → Room → Room
set_session k s r = record r { sessions = update r.sessions k s }

abbrev pub hang_up : Session → Session
hang_up s = record s { hangups = suc s.hangups }

-- `l_delClient`, under the lock. The counter of connected clients is kept in verbose mode only.
unfoldable pub del_client : Bool → ℕ → ℕ → Room → Room
unfolding dec
del_client verbose i c r = elim (r.clients i) [
  | none ↦ r
  | some d ↦ record r {
    sessions = update r.sessions c (hang_up (r.sessions c));
    clients = update r.clients i none;
    connectedclients = if verbose then dec r.connectedclients else r.connectedclients;
  }
]

-- The first part of `Close`: whether the channel is closed. If so, an error is returned, which
-- nobody looks at.
abbrev pub checked : ℕ → Session → Session
checked i s = record s { handler = if s.closed then leaving i else closing i }

-- `close(c.closed)`, which panics on a channel that is closed.
abbrev pub close_channel : ℕ → Session → Room → Room
close_channel k s r =
    if (r.sessions k).closed
    then record r { panicked = true }
    else set_session k (record s { closed = true }) r

-- The next operation of a handler; `reading` goes on by what comes from the connection.
unfoldable pub handler_step : Bool → ℕ → Handler → Room → Room
unfolding inc del_client
handler_step verbose k joining r =
    let id = inc r.numclients in
    set_session k (record (r.sessions k) { handler = inserting id }) (record r { numclients = id })
handler_step verbose k (inserting i) r =
    set_session k (record (r.sessions k) { handler = listening i; writer = sending i })
      (record r { clients = update r.clients i (some k) })
handler_step verbose k (listening i) r =
    set_session k (record (r.sessions k) { handler = reading i })
      (record r {
        connectedclients = if verbose then inc r.connectedclients else r.connectedclients;
      })
handler_step verbose k (reading i) r = r
handler_step verbose k (checking i) r = set_session k (checked i (r.sessions k)) r
handler_step verbose k (closing i) r =
    close_channel k (record (r.sessions k) { handler = leaving i }) r
handler_step verbose k (leaving i) r =
    let after = del_client verbose i k r in
    set_session k (record (after.sessions k) { handler = left i }) after
handler_step verbose k (left i) r = r

-- The next operation of a writer; `sending` goes on by what comes from the connection or the queue.
unfoldable pub writer_step : Bool → ℕ → Writer → Room → Room
unfolding del_client
writer_step verbose k unborn r = r
writer_step verbose k (sending i) r = r
writer_step verbose k (dropping i) r =
    let after = del_client verbose i k r in
    set_session k (record (after.sessions k) { writer = testing }) after
writer_step verbose k testing r =
    let s = r.sessions k in
    set_session k (record s { writer = if s.closed then ended else shutting }) r
writer_step verbose k shutting r = close_channel k (record (r.sessions k) { writer = ended }) r
writer_step verbose k ended r = r

-- A read that fails, for an error or for a message that is no text; a write that fails; the end of
-- the channel of messages, for a client that is out of sync.
unfoldable pub fail_read : ℕ → Handler → Room → Room
fail_read k (reading i) r = set_session k (record (r.sessions k) { handler = checking i }) r
fail_read k _ r = r

unfoldable pub fail_write : ℕ → Writer → Room → Room
fail_write k (sending i) r = set_session k (record (r.sessions k) { writer = dropping i }) r
fail_write k _ r = r

unfoldable pub fall_behind : ℕ → Writer → Room → Room
fall_behind k (sending i) r = set_session k (record (r.sessions k) { writer = testing }) r
fall_behind k _ r = r

abbrev pub or_else : Option ℕ → Option ℕ → Option ℕ
or_else (some c) o = some c
or_else none o = o

-- `Close` of the room starts one call for each client that the map holds.
abbrev pub close_room : Room → Room
close_room r = record r { purging = λ i. or_else (r.clients i) (r.purging i) }

abbrev pub purge : Bool → ℕ → Option ℕ → Room → Room
purge verbose i none r = r
purge verbose i (some c) r =
    let after = del_client verbose i c r in record after { purging = update after.purging i none }

pub data Move : Type 0 where
  handles writes read_fails write_fails falls_behind : ℕ → Move
  room_closes : Move
  purges : ℕ → Move

abbrev pub next : Bool → Room → Move → Room
next verbose r (handles k) = handler_step verbose k (r.sessions k).handler r
next verbose r (writes k) = writer_step verbose k (r.sessions k).writer r
next verbose r (read_fails k) = fail_read k (r.sessions k).handler r
next verbose r (write_fails k) = fail_write k (r.sessions k).writer r
next verbose r (falls_behind k) = fall_behind k (r.sessions k).writer r
next verbose r room_closes = close_room r
next verbose r (purges i) = purge verbose i (r.purging i) r

-- A panic ends the server.
unfoldable pub move : Bool → Room → Move → Room
unfolding handler_step writer_step fail_read fail_write fall_behind
move verbose r m = if r.panicked then r else next verbose r m

abbrev pub run : Bool → Room → List Move → Room
run verbose = foldl (move verbose)
