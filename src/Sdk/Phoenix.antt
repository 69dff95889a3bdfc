-- ===== src/Sdk/Phoenix.antt =====
-- packages/sdk/src/phoenix and websocket.ts: commands over one multiplexed socket.
pub mod Protocol
pub mod Pending
pub mod Socket
pub mod Commands
pub mod Session
