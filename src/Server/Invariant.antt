-- ===== src/Server/Invariant.antt =====
-- The parts of the server of server/ChatServer.h agree with one another.
pub mod Serving
pub mod Preserved
pub mod CallRequests
pub mod AllRequests
