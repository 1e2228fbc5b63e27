-- ===== src/Cellular/Stub.antt =====
-- src/cellular/stub-cellular-voice-provider.ts. Operations give the provider and the events that
-- they emit, in order. New identifiers and the time are arguments, and `dial_timer` is what the
-- timer of a dialled call does when it fires.
pub mod Calls
use textbee_gateway.Prelude.{
  String, Option, none, some, List, [], ◌∷◌, Result, ok, err, or_default, or_throw, ◌>>=◌,
}
use textbee_gateway.JsMap.{JsMap, get, set}
use textbee_gateway.Core.Types.{
  ProviderId, CallSession, CallState, dialing, ringing, in_progress, ended, outbound, inbound,
  AdapterEvent, call_incoming, call_state_changed, call_ended,
}
use textbee_gateway.Cellular.Types.{CellularEndpointConfig}

pub record StubCellularVoiceProvider : Type 0 where
  pub id : ProviderId
  pub calls : JsMap CallSession

pub data StubError : Type 0 where
  unknown_call : String → StubError

unfoldable pub dial :
    String
    → String
    → CellularEndpointConfig
    → String
    → StubCellularVoiceProvider
    → CallSession × StubCellularVoiceProvider
dial new_id now endpoint destination s =
    let session : CallSession = record {
      id = new_id;
      provider = s.id;
      direction = outbound;
      from = record { address = or_default endpoint.phone_number ""; label = none };
      to = record { address = destination; label = none };
      state = dialing;
      started_at = now;
      ended_at = none;
      media_stream_url = none;
    } in
    (session, record s { calls = set new_id session s.calls })

connected :
    Option CallSession → StubCellularVoiceProvider → StubCellularVoiceProvider × List AdapterEvent
connected none s = (s, [])
connected (some c) s = (
  record s { calls = set c.id (record c { state = in_progress }) s.calls },
  call_state_changed c.id in_progress ∷ [],
)

unfoldable pub dial_timer :
    String → StubCellularVoiceProvider → StubCellularVoiceProvider × List AdapterEvent
unfolding connected
dial_timer call_id s = connected (get call_id s.calls) s

unfoldable pub simulate_incoming_call :
    String
    → String
    → CellularEndpointConfig
    → String
    → StubCellularVoiceProvider
    → CallSession × StubCellularVoiceProvider × List AdapterEvent
simulate_incoming_call new_id now endpoint from s =
    let session : CallSession = record {
      id = new_id;
      provider = s.id;
      direction = inbound;
      from = record { address = from; label = none };
      to = record { address = or_default endpoint.phone_number ""; label = none };
      state = ringing;
      started_at = now;
      ended_at = none;
      media_stream_url = none;
    } in
    (session, record s { calls = set new_id session s.calls }, call_incoming session ∷ [])

unfoldable pub answer :
    String
    → StubCellularVoiceProvider
    → Result StubError (StubCellularVoiceProvider × List AdapterEvent)
answer call_id s = do
  c ← or_throw (unknown_call call_id) (get call_id s.calls)
  ok (
    record s { calls = set call_id (record c { state = in_progress }) s.calls },
    call_state_changed call_id in_progress ∷ [],
  )

unfoldable pub hangup :
    String
    → String
    → StubCellularVoiceProvider
    → Result StubError (StubCellularVoiceProvider × List AdapterEvent)
hangup now call_id s = do
  c ← or_throw (unknown_call call_id) (get call_id s.calls)
  ok (
    record s { calls = set call_id (record c { state = ended; ended_at = some now }) s.calls },
    call_ended call_id none ∷ [],
  )

unfoldable pub shutdown : StubCellularVoiceProvider → StubCellularVoiceProvider
shutdown s = record s { calls = [] }
