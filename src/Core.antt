-- ===== src/Core.antt =====
-- src/core: the data that every part shares, the order of message states, phone numbers, and the
-- session manager.
pub mod Types
pub mod Status
pub mod Conversation
pub mod Phone
pub mod Session
