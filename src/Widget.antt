-- ===== src/Widget.antt =====
-- The chat widget of static/chatroomwidget.js: its state, the handlers of its events, and what
-- holds of every run.
pub mod State
pub mod Log
pub mod Quit
pub mod Commands
pub mod Connection
pub mod Incoming
pub mod Forms
pub mod Main
pub mod Core
pub mod Lifecycle
pub mod Classes
pub mod SameLook
pub mod Look
pub mod Toggle
pub mod Ended
pub mod Typing
pub mod Connected
pub mod Countdown
pub mod Notice
pub mod Reading
pub mod Nickname
pub mod Drag
pub mod Dom
pub mod Tests
