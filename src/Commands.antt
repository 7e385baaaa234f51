-- ===== src/Commands.antt =====
-- The command language of the clients, common/Protocol.cc.
pub mod Tokens
pub mod Build
pub mod Words
pub mod Typed
pub mod Sent
