-- ===== src/Hub.antt =====
-- The server that passes the lines of a room on, under hub.
pub mod Queue
pub mod Counter
pub mod Room
pub mod Tests
