-- ===== src/Media.antt =====
-- src/media: the RTP codec and the media engine.
pub mod Bytes
pub mod Capabilities
pub mod Engine
pub mod Rtp
