-- ===== src/Server.antt =====
-- server/include/blueboat/server.hpp and server/src/server.cpp.
pub mod State
pub mod Creation
pub mod Requests
pub mod Connection
pub mod Host
pub mod Dispatch
pub mod Auth
pub mod Admin
pub mod Total
pub mod Ids
pub mod Escapes
