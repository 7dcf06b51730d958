-- ===== src/Tests.antt =====
-- The theorems at concrete inputs.
pub mod Stores
pub mod Lists
pub mod Streams
pub mod Frames
pub mod Rooms
pub mod Servers
pub mod Panels
pub mod Payloads
pub mod Clients
pub mod Packing
pub mod Links
pub mod Promises
pub mod Sockets
pub mod Locks
pub mod Secure
pub mod Coded
pub mod Chats
pub mod Served
pub mod Waits
pub mod Typing
