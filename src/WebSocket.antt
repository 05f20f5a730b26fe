-- ===== src/WebSocket.antt =====
-- internal/pkg/websocket: the hub that sends messages to the connections of a user.
pub mod Hub
pub mod Threads
pub mod Invariant
pub mod Crash
mod Tests
