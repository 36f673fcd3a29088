-- ===== src/Lib.antt =====
-- The chat widget of the repository, static/chatroomwidget.js, and the core of its server, hub.
--
-- A page that loads the script gets a widget: it asks for a nickname, opens a WebSocket to the hub
-- for the room of the page, sends the lines that the user types, and shows those that come in.
--
-- Base has the shared helpers: native numbers with Boolean tests, lists measured by them, integers.
-- Text is JavaScript's strings as lists of UTF-16 code units, with the methods that the script
-- calls, and Regex a backtracking matcher for the expressions that it searches with. Host holds
-- what the browser and its engine decide as a record of parameters, and Host/Numbers the numbers
-- that the countdown counts with.
--
-- The parts of the script without state of their own:
-- - Links: `urlify`, with the whole expression `htmlrex` in Links/Pattern. Links/Markup reads HTML
--   back as text and tags, and Links/Scheme follows how the matches of the expression begin.
-- - Scroll: `isScrolledToBottom`, `scrollToBottom`.
-- - Title: `callAlternating` (Title/Alternating), `oldTitle` and `titleInterval` of
--   `handleIncomingMessage` and of the listener of `visibilitychange`.
-- - Url: `getDocumentLoc`, `getWebsocketUrl`; Url/Encoding is `encodeURIComponent` as its standard
--   describes it, and Url/Decoding a reader of queries written independently of it.
-- - Message: the line that `sendMessage` sends, and how `handleIncomingMessage` splits it and
--   searches it for the nickname.
-- - Names: `selectRandomItem`, `suggestName` and its two lists, `getCachedNameSafe`,
--   `setCachedNameSafe`. Names/Product is the product of a random number and a length, as rounded.
--
-- Widget is the script as a whole. Widget/State has its variables and what its handlers read and
-- write of the document, and programs over them that can throw, where what was done before an error
-- stays done. Widget/Log is `logToUser`, `about`, `showMessage`; Widget/Quit `quitDelay` and
-- `quitImmediately`; Widget/Commands `commandHandlers`, `handleCommand`, `handleMessageInput`,
-- `setName`; Widget/Connection `connectWebsocket`; Widget/Incoming `handleIncomingMessage`;
-- Widget/Forms the listeners of the two forms and of the minifier; Widget/Main `createWidget`,
-- `chatroomwidget_main` and `handle`, one step for every event of the user, scrolling the list
-- included, of the browser and of the hub.
-- A run is a list of events in any order; the events of a socket take place only in the states in
-- which the browser raises them. Widget/Drag puts dragging around it: `makeDraggable`,
-- `tryMakeDraggable`, the button that loads jQuery UI, and `loadJS` (Widget/Drag/Loader). The widget
-- by itself is one on a page without jQuery; Widget/Drag/Refines relates the two. Widget/Dom
-- is the tree of elements that a state of the widget stands for, as `createWidget`,
-- `createConfigScreen`, `logToUser` and `handleIncomingMessage` build it (whether the button for
-- dragging is enabled is in Widget/Drag/Loader only). The other files under Widget hold proofs about
-- all of these.
--
-- Style has selectors, their weights and the cascade of CSS, and Style/Sheet the rules of
-- `makeCSStext`. The sheets that the repository does not write, among them the copy of cleanslate
-- that the script puts before its rules, are a parameter: what they declare for `display`, and
-- whether as important. What of two elements in one place covers the other has no meaning here.
--
-- Bookmarklet is static/chatroombookmarklet.js, which loads the widget into a page, and Sections is
-- www/base.js, the script of the website.
--
-- Hub/Queue is hub/messagequeue.go, the backlog through which the server passes the lines of a room:
-- any number of calls of `Append` and of listeners, interleaved in any order, one step for each
-- atomic operation. Entries have numbers in the order in which they become the newest one, which
-- stand for their addresses. Hub/Queue/Order is about all interleavings, Hub/Queue/Race about one
-- kind of them, Hub/Queue/Backlog about calls that come one after the other, Hub/Queue/Replay
-- about a listener that joins when nobody is at work, and Hub/Queue/History about all calls since a
-- queue was made and a listener behind them.
--
-- Hub/Room is hub/chatroom.go with hub/client.go and `handleWebsocket` of hub/groupchatserver.go: the
-- map of a room's clients and its counters (Hub/Counter, hub/safevals.go), and for each connection
-- the handler that reads from it and the goroutine that sends to it, again one step for each
-- operation on what they share. Reads, writes and the backlog fail whenever they like. Hub/Room/Forgets
-- is about all interleavings, Hub/Room/Closing about the orders in which two goroutines can
-- close one client.
--
-- Fuel and bounds: the decimal digits of n are given n + 1 rounds, and a star in an expression as
-- many as there are units left, since a round that consumes nothing is cut off. A product with n is
-- given n rounds to count the bits beyond 53, which are enough by `product-enough`. No other
-- definition has fuel. A number of `quitDelay` is a whole number within 2^53 of 0, or any other
-- value, whose arithmetic is a parameter; so are `Number` of a text that is not one to fifteen
-- digits, and which expression the engine compiles from the nickname. A random number is a multiple
-- of 2^-53, as engines make them, and the entry of `localStorage` that a start of the widget gets is
-- that of the page's origin.
--
-- Not modelled: properties of the style sheet other than `display` have no meaning here, and its text
-- is read as rules; output to the console; `makeResizable`, which returns at its first statement;
-- and of the server under hub the handling of requests, which is calls of other packages, and the
-- goroutine that stops a listener of the queue when its client is closed. In the queue, a call
-- with a nil message, which panics at once, is left out, and the size is an integer without bounds,
-- since the memory ends long before 64 bits do. If a room is closed a second time before the calls of
-- the first closing have run, there is still one call for each id.
pub mod Base
pub mod Text
pub mod Regex
pub mod Links
pub mod Scroll
pub mod Host
pub mod Title
pub mod Url
pub mod Message
pub mod Names
pub mod Widget
pub mod Bookmarklet
pub mod Style
pub mod Sections
pub mod Hub
pub mod Tests
