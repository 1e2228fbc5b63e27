-- ===== src/Cellular/Types.antt =====
-- src/cellular/types.ts.
use textbee_gateway.Prelude.{Bool, String, Option, List}
use textbee_gateway.Core.Types.{ProviderId, CallSession, ChannelKind}
use textbee_gateway.Core.Session.{Reply}

pub data LineNumberStatus : Type 0 where
  demo configured verified unverified : LineNumberStatus

pub record CellularEndpointConfig : Type 0 where
  pub id : String
  pub phone_number : Option String
  pub line_number_status : Option LineNumberStatus
  pub capabilities : List ChannelKind
  pub messaging : Option ProviderId
  pub voice : Option ProviderId

pub record VoiceProviderStatus : Type 0 where
  pub available : Bool
  pub detail : Option String

-- `simulate_incoming_call` is what a provider for development has more. `W` is what stands behind
-- the providers.
pub record CellularVoiceProvider (W : Type 0) : Type 0 where
  pub id : ProviderId
  pub dial : CellularEndpointConfig → String → W → Reply W CallSession
  pub answer : String → W → Reply W (Unit {0})
  pub hangup : String → W → Reply W (Unit {0})
  pub get_status : CellularEndpointConfig → W → VoiceProviderStatus
  pub simulate_incoming_call : Option (CellularEndpointConfig → String → W → Reply W CallSession)
