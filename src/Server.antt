-- ===== src/Server.antt =====
-- server/ChatServer.cc and server/ChatSession.cc.
pub mod Numbers
pub mod Messages
pub mod Metrics
pub mod Lines
pub mod World
pub mod State
pub mod Accounts
pub mod Chat
pub mod Calls
pub mod Requests
pub mod Invariant
pub mod Guests
pub mod Races
pub mod Receivers
