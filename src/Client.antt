-- ===== src/Client.antt =====
-- client/: the client library, its rooms and its connection to a server.
pub mod State
pub mod Rooms
pub mod Connection
pub mod Wire
pub mod Rejoining
pub mod Handshaking
pub mod Retrying
pub mod Creating
