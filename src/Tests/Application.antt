-- ===== src/Tests/Application.antt =====
-- Tests of src/application.
use textbee_gateway.Prelude.{
  ℕ, ◌≡◌, String, Bool, true, false, Option, none, some, [], ◌∷◌, ◌⊎◌, Result, ok, err,
}
use textbee_gateway.JsMap.{get}
use textbee_gateway.Core.Types.{ProviderId, CallSession, inbound, ringing}
use textbee_gateway.Media.Capabilities.{MediaBridgeHandle}
use textbee_gateway.Media.Engine.{is_active, Randoms, fresh_session}
use textbee_gateway.Application.{
  VoiceSessionError, CommunicationApplicationService, start_voice_session, stop_voice_session,
}
use textbee_gateway.Application
use textbee_gateway.Application.Shutdown.{shutdown_lem}
use textbee_gateway.Application.Voice.{
  IsClean, start_voice_session-IsClean, stop_voice_session-idle,
}

abbrev call : CallSession
call = record {
  id = "call_1";
  provider = "pbx";
  direction = inbound;
  from = record { address = "you"; label = none };
  to = record { address = "me"; label = none };
  state = ringing;
  started_at = "noon";
  ended_at = none;
  media_stream_url = none;
}

abbrev durable : String → Result VoiceSessionError (Option CallSession)
durable id = ok (some call)

-- One provider, of which the bridges fail to start and to stop.
abbrev provider_by_id : ProviderId → Option (Unit {0})
provider_by_id id = some tt

abbrev start_bridge : Unit {0} → Option (String → String × ℕ → Option MediaBridgeHandle)
start_bridge p = some (λ id address. none)

abbrev stop_bridge : Unit {0} → Option (MediaBridgeHandle → Bool)
stop_bridge p = some (λ bridge. false)

abbrev randoms : Randoms
randoms = record { ssrc = 1; seq = 2; timestamp = 3 }

abbrev all_free : ℕ → Bool
all_free p = true

abbrev idle : CommunicationApplicationService
idle = record {
  active_bridges = [];
  media = record {
    sessions = [];
    local_host = "127.0.0.1";
    port_range_start = 40000;
    port_range_end = 40200;
    next_port = 40000;
  };
}

abbrev busy : CommunicationApplicationService
busy = record idle {
  active_bridges = ("call_1", record { bridge_id = "b"; external_channel_id = "x" }) ∷ [];
  media = record idle.media { sessions = ("call_1", fresh_session "call_1" 40000 randoms) ∷ [] };
}

start_voice_session-IsClean_example : IsClean idle "call_1" "call_1" (
    start_voice_session durable provider_by_id start_bridge stop_bridge all_free true randoms
      "call_1" idle)
start_voice_session-IsClean_example =
    start_voice_session-IsClean durable provider_by_id start_bridge stop_bridge all_free true
      randoms "call_1" "call_1" idle

stop_voice_session-idle_example :
    let (result, svc') =
      stop_voice_session durable provider_by_id start_bridge stop_bridge "call_1" busy in
    ((get "call_1" svc'.active_bridges ≡ none) × (get "call_1" svc'.media.sessions ≡ none))
    ⊎ ((e : VoiceSessionError) × (durable "call_1" ≡ err e) × (result ≡ err e) × (svc' ≡ busy))
stop_voice_session-idle_example =
    stop_voice_session-idle durable provider_by_id start_bridge stop_bridge "call_1" busy

shutdown_lem_example :
    let svc' = Application.shutdown durable provider_by_id start_bridge stop_bridge busy in
    ((get "call_1" svc'.active_bridges ≡ none)
      ⊎ ((e : VoiceSessionError) × (durable "call_1" ≡ err e)))
    × (is_active "call_1" svc'.media ≡ false)
shutdown_lem_example = shutdown_lem durable provider_by_id start_bridge stop_bridge busy "call_1"
