-- ===== src/Server/Lines.antt =====
-- `ChatServer::onMessage`, server/ChatServer.cc: what arrives is cut into lines.
pub mod Split
pub mod Loop
pub mod Present
pub mod Chunks
pub mod Clients
