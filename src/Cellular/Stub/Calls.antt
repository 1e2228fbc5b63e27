-- ===== src/Cellular/Stub/Calls.antt =====
-- A call of the stub provider from its dialling to its end, and after it.
use textbee_gateway.Prelude.{◌≡◌, String, none, some, [], ◌∷◌, ok}
use textbee_gateway.JsMap.{get, set}
use textbee_gateway.JsMap.Laws.{get-set_self}
use textbee_gateway.Core.Types.{CallSession, ended, in_progress, call_state_changed, call_ended}
use textbee_gateway.Cellular.Types.{CellularEndpointConfig}
use textbee_gateway.Cellular.Stub.{StubCellularVoiceProvider, connected, dial, dial_timer, hangup}

-- A call that is dialled and hung up before its timer fires: the provider first reports its end,
-- and when the timer fires it puts the call, which has an end, into `in_progress` and reports that.
pub dial_timer_after_hangup :
    (id start now destination : String) (endpoint : CellularEndpointConfig)
    (s : StubCellularVoiceProvider)
    → let (c, dialled) = dial id start endpoint destination s in
      (hung : StubCellularVoiceProvider) × (hangup now id dialled
        ≡ ok (hung, call_ended id none ∷ []))
      × (get id hung.calls ≡ some (record c { state = ended; ended_at = some now }))
      × (get id (dial_timer id hung).0.calls
          ≡ some (record c { state = in_progress; ended_at = some now }))
      × ((dial_timer id hung).1 ≡ call_state_changed id in_progress ∷ [])
unfolding dial hangup dial_timer
dial_timer_after_hangup id start now destination endpoint s =
    let (c, dialled) = dial id start endpoint destination s in
    let over : CallSession = record c { state = ended; ended_at = some now } in
    let hung : StubCellularVoiceProvider = record dialled { calls = set id over dialled.calls } in
    let found = get-set_self id over dialled.calls in
    (
      hung,
      rw (get-set_self id c s.calls),
      found,
      rw (found, connected) (get-set_self id (record over { state = in_progress }) hung.calls),
      rw (found, connected),
    )
