-- ===== src/Cellular.antt =====
-- src/cellular: phone lines, each one identity that is reached by messages and by calls.
pub mod Types
pub mod ChanMobile
pub mod Registry
pub mod Stub
