-- ===== src/Media/Capabilities.antt =====
-- src/media/voice-media-provider.ts: what a provider that carries audio hands out.
use textbee_gateway.Prelude.{String}

pub record MediaBridgeHandle : Type 0 where
  pub bridge_id : String
  pub external_channel_id : String
