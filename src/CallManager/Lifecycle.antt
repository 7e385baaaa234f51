-- ===== src/CallManager/Lifecycle.antt =====
-- What the operations of server/CallManager.cc do to the state of each user.
pub mod Effects
pub mod States
pub mod Outcomes
