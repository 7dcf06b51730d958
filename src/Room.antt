-- ===== src/Room.antt =====
-- server/include/blueboat/room.hpp and server/src/room.cpp.
pub mod State
pub mod Lifecycle
pub mod Messages
pub mod Ending
pub mod Members
pub mod Reconnection
pub mod Closing
