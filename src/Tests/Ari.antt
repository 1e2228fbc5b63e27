-- ===== src/Tests/Ari.antt =====
-- Tests of src/adapters/asterisk-ari-adapter.ts and src/cellular/asterisk-chan-mobile-provider.ts.
use textbee_gateway.Prelude.{
  ◌+◌, ◌*◌, ◌≤◌, ◌⊎◌, inl, ◌≡◌, ◌≢◌, refl, Bool, true, false, String, Option, none, some, [], ◌∷◌,
  Result, ok, err,
}
use textbee_gateway.Core.Session.{Failure, provider_error}
use textbee_gateway.Media.Capabilities.{MediaBridgeHandle}
use textbee_gateway.Ari.Connection.{
  Connection, unconnected, connect_events, on_close, on_timer, on_error, shutdown, connected,
  connecting,
}
use textbee_gateway.Ari.Connection.Runs.{
  Run, Step, events, here, next, closes, fires, fails, reconnects, stopped_for_good,
}
use textbee_gateway.Ari.Requests.{
  AriRequest, create_bridge, external_media, add_channel, AriClient, start_media_bridge,
  request_path, hold_channel,
}
use textbee_gateway.Ari.Requests.Bridges.{Log, Leaves, logged, start_media_bridge-Leaves}
use textbee_gateway.Tests.Asterisk.{one_call}

-- A server that makes a bridge and a channel, and lets no channel into a bridge if `refuses`.
serve : Bool → AriRequest → Unit {0} → Result Failure (Option String) × Unit {0}
serve refuses create_bridge v = (ok (some "b1"), v)
serve refuses (external_media app host format) v = (ok (some "x1"), v)
serve true (add_channel bridge added) v = (err (provider_error "409"), v)
serve refuses request v = (ok none, v)

abbrev refused_bridge : Result Failure MediaBridgeHandle × AriClient (Unit {0} × Log)
refused_bridge =
    start_media_bridge (logged (serve true)) "gw" "call_1" "127.0.0.1:40000" "ulaw"
      (record { calls = one_call; server = (tt, []) })

start_media_bridge-Leaves_example : Leaves (serve true) refused_bridge
start_media_bridge-Leaves_example =
    start_media_bridge-Leaves (serve true) "gw" "call_1" "127.0.0.1:40000" "ulaw" one_call tt

abbrev handle : MediaBridgeHandle
handle = record { bridge_id = "b1"; external_channel_id = "x1" }

-- The log after the four requests of a start.
abbrev started_log : Log
started_log =
    (create_bridge, ok (some "b1"))
    ∷ (external_media "gw" "127.0.0.1:40000" "ulaw", ok (some "x1"))
    ∷ (add_channel "b1" "c1", ok none)
    ∷ (add_channel "b1" "x1", ok none)
    ∷ []

abbrev started : AriClient (Unit {0} × Log)
started = record { calls = one_call; server = (tt, started_log) }

hold_path : request_path (λ s. s) (hold_channel "c1" true) ≡ "/channels/c1/hold"
unfolding request_path
hold_path = refl

abbrev lost : Connection
lost = on_close (connect_events unconnected)

lost-Run : Run (connect_events unconnected) lost
unfolding connect_events
lost-Run = next here (closes (connect_events unconnected) (λ e. cc))

abbrev retried : Connection
retried = on_timer lost

-- The timer fires, and the new socket fails.
retried-Run : Run lost (on_error retried)
unfolding connect_events on_close on_timer
retried-Run = next (next here (fires lost refl)) (fails retried (inl refl))

reconnects_example :
    (events retried-Run + 4 * lost.attempts ≤ 4 * (on_error retried).attempts + 3)
    × (((on_error retried).socket ≡ connected)
        ⊎ ((e : Connection) × Step (on_error retried) e × (e.stopping ≡ false)))
reconnects_example =
    reconnects lost-Run retried-Run (unfold connect_events on_close on_timer on_error in refl)

abbrev stopped : Connection
stopped = shutdown (connect_events unconnected)

stopped-Run : Run stopped (on_close stopped)
unfolding connect_events shutdown
stopped-Run = next here (closes stopped (λ e. cc))

stopped_for_good_example :
    ((on_close stopped).attempts ≡ (connect_events unconnected).attempts)
    × ((on_close stopped).reconnect_timer ≡ false)
    × ((on_close stopped).socket ≢ connected)
    × ((on_close stopped).socket ≢ connecting)
stopped_for_good_example = stopped_for_good here stopped-Run
