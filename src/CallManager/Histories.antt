-- ===== src/CallManager/Histories.antt =====
-- Any sequence of operations of server/CallManager.cc, and the book of calls that they keep.
pub mod Steps
pub mod Book
pub mod Transitions
pub mod Users
