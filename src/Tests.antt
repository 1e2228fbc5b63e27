-- ===== src/Tests.antt =====
-- Runs at concrete inputs, and the theorems applied to such inputs.
mod Application
mod Ari
mod Asterisk
mod Cellular
mod Conversation
mod Core
mod Events
mod Http
mod Mcp
mod Media
mod Phone
mod Redis
mod Stores
mod TextBee
