-- ===== src/Tests/Mcp.antt =====
-- Tests of src/mcp/server.ts.
use textbee_gateway.Prelude.{
  ℕ, ◌≡◌, refl, Bool, true, false, String, Option, none, some, [], ◌∷◌, err,
}
use textbee_gateway.Core.Types.{ProviderId, CallSession, inbound, ringing, call_ended}
use textbee_gateway.Media.Capabilities.{MediaBridgeHandle}
use textbee_gateway.Media.Engine.{Randoms, start_session, is_active}
use textbee_gateway.Mcp.{
  LoggedEvent, get_events, VoiceSessions, bridge_failed, session_active, start_voice_session,
}
use textbee_gateway.Mcp.EventLog.{log_of, newest, log_of-newest}
use textbee_gateway.Mcp.Sessions.{failed_start_lingers}

abbrev event : LoggedEvent
event = record { event = call_ended "call_1" none; provider = "pbx"; received_at = "noon" }

log_of-newest_example : log_of (event ∷ event ∷ []) ≡ newest (event ∷ event ∷ [])
log_of-newest_example = log_of-newest (event ∷ event ∷ [])

nothing_since : get_events (λ s. 5) (some "noon") (event ∷ []) ≡ []
unfolding get_events
nothing_since = refl

abbrev session : CallSession
session = record {
  id = "call_1";
  provider = "pbx";
  direction = inbound;
  from = record { address = "you"; label = none };
  to = record { address = "me"; label = none };
  state = ringing;
  started_at = "noon";
  ended_at = none;
  media_stream_url = none;
}

abbrev call : String → Option CallSession
call id = some session

-- One provider, of which the bridges fail to start and to stop.
abbrev provider_by_id : ProviderId → Option (Unit {0})
provider_by_id id = some tt

abbrev start_bridge : Unit {0} → Option (String → String × ℕ → Option MediaBridgeHandle)
start_bridge p = some (λ id address. none)

abbrev stop_bridge : Unit {0} → Option (MediaBridgeHandle → Bool)
stop_bridge p = some (λ bridge. false)

abbrev randoms : Randoms
randoms = record { ssrc = 1; seq = 2; timestamp = 3 }

abbrev all_free : ℕ → Bool
all_free p = true

abbrev quiet : VoiceSessions
quiet = record {
  active_bridges = [];
  media = record {
    sessions = [];
    local_host = "127.0.0.1";
    port_range_start = 40000;
    port_range_end = 40200;
    next_port = 40000;
  };
}

failed_start_lingers_example :
    let (result, s') =
      start_voice_session call provider_by_id start_bridge stop_bridge all_free true randoms
        "call_1" quiet in
    (result ≡ err bridge_failed)
    × (is_active "call_1" s'.media ≡ true)
    × (start_voice_session call provider_by_id start_bridge stop_bridge all_free true randoms
          "call_1" s'
        ≡ (err (session_active "call_1"), s'))
unfolding is_active start_session
failed_start_lingers_example =
    failed_start_lingers call provider_by_id start_bridge stop_bridge all_free all_free true true
      randoms randoms "call_1" quiet refl refl refl refl refl refl
