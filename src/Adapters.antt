-- ===== src/Adapters.antt =====
-- src/adapters: the providers.
pub mod Asterisk
pub mod Stub
pub mod TextBee
pub mod WhatsApp
