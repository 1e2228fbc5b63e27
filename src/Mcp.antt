-- ===== src/Mcp.antt =====
-- src/mcp/server.ts: the log of events that its agents poll, and the voice sessions that they start
-- and stop. `time_of` is `getTime` of a date, `now` the time. `call` is what `manager.getCall` has of
-- the call, `provider_by_id` the look-up of a provider, first among the adapters and then among
-- those of the phone lines; `start_bridge` and `stop_bridge` are the two methods of a provider with
-- media, and `none` and `false` stand for their throwing.
pub mod EventLog
pub mod Sessions
use textbee_gateway.Prelude.{
  ℕ, Bool, true, false, String, Option, none, some, List, [], ◌∷◌, ◌++◌, Result, ok, err, or_throw,
  ◌>>=◌, if◌then◌else◌, length, ltb,
}
use textbee_gateway.JsMap.{JsMap, get, set, delete}
use textbee_gateway.Core.Types.{ProviderId, CallSession, AdapterEvent}
use textbee_gateway.Media.Capabilities.{MediaBridgeHandle}
use textbee_gateway.Media.Engine.{
  MediaEngine, MediaError, Randoms, start_session, stop_session, is_active,
}

abbrev pub event_buffer_size : ℕ
event_buffer_size = 200

pub record LoggedEvent : Type 0 where
  pub event : AdapterEvent
  pub provider : ProviderId
  pub received_at : String

-- `shift`
shift : List LoggedEvent → List LoggedEvent
shift [] = []
shift (e ∷ es) = es

unfoldable pub push_event : String → ProviderId → AdapterEvent → List LoggedEvent → List LoggedEvent
unfolding shift
push_event now provider event log =
    let longer = log ++ record { event = event; provider = provider; received_at = now } ∷ [] in
    if ltb event_buffer_size (length longer) then shift longer else longer

-- The tool `get_events`.
unfoldable pub get_events : (String → ℕ) → Option String → List LoggedEvent → List LoggedEvent
get_events time_of since [] = []
get_events time_of since (e ∷ es) =
    let rest = get_events time_of since es in
    if ltb (elim since [ none ↦ 0 | some s ↦ time_of s ]) (time_of e.received_at)
    then e ∷ rest
    else rest

pub data ToolError : Type 0 where
  unknown_call : String → ToolError
  no_media_bridging : ProviderId → ToolError
  session_active : String → ToolError
  media_error : MediaError → ToolError
  bridge_failed : ToolError
  stop_failed : ToolError

pub record VoiceSessions : Type 0 where
  pub active_bridges : JsMap MediaBridgeHandle
  pub media : MediaEngine

abbrev pub Done : Type 0
Done = Result ToolError (Unit {0}) × VoiceSessions

module _ (call_id : String) (s : VoiceSessions) where
  bridged : Option MediaBridgeHandle → MediaEngine → Done
  bridged none media = (err bridge_failed, record s { media = media })
  bridged (some bridge) media =
      (ok tt, record s { active_bridges = set call_id bridge s.active_bridges; media = media })

  with_media :
      (String → String × ℕ → Option MediaBridgeHandle)
      → Result MediaError (String × ℕ) × MediaEngine
      → Done
  unfolding bridged
  with_media start (err e, media) = (err (media_error e), record s { media = media })
  with_media start (ok address, media) = bridged (start call_id address) media

module _ {P : Type 0} (call : String → Option CallSession) (provider_by_id : ProviderId → Option P)
    (start_bridge : P → Option (String → String × ℕ → Option MediaBridgeHandle))
    (stop_bridge : P → Option (MediaBridgeHandle → Bool)) where
  media_of :
      Option P → ProviderId → Result ToolError (String → String × ℕ → Option MediaBridgeHandle)
  media_of none id = err (no_media_bridging id)
  media_of (some p) id = or_throw (no_media_bridging id) (start_bridge p)

  bridging : String → Result ToolError (String → String × ℕ → Option MediaBridgeHandle)
  unfolding media_of
  bridging call_id = do
    c ← or_throw (unknown_call call_id) (call call_id)
    media_of (provider_by_id c.provider) c.provider

  begin_media :
      Result ToolError (String → String × ℕ → Option MediaBridgeHandle)
      → (ℕ → Bool)
      → Bool
      → Randoms
      → String
      → VoiceSessions
      → Done
  unfolding with_media
  begin_media (err e) free connects r call_id s = (err e, s)
  begin_media (ok start) free connects r call_id s =
      if is_active call_id s.media
      then (err (session_active call_id), s)
      else with_media call_id s start (start_session free connects r call_id s.media)

  -- The tool `start_voice_session`.
  unfoldable pub start_voice_session : (ℕ → Bool) → Bool → Randoms → String → VoiceSessions → Done
  unfolding bridging begin_media
  start_voice_session free connects r call_id s =
      begin_media (bridging call_id) free connects r call_id s

  -- Whether the stop of a bridge went through.
  provider_stops : Option P → MediaBridgeHandle → Bool
  provider_stops none bridge = true
  provider_stops (some p) bridge = elim (stop_bridge p) [ none ↦ true | some stop ↦ stop bridge ]

  bridge_stops : Option MediaBridgeHandle → Option CallSession → Bool
  unfolding provider_stops
  bridge_stops (some bridge) (some c) = provider_stops (provider_by_id c.provider) bridge
  bridge_stops bridge call' = true

  -- The tool `stop_voice_session`: a provider that throws keeps the bridge in the map.
  unfoldable pub stop_voice_session : String → VoiceSessions → Done
  unfolding bridge_stops
  stop_voice_session call_id s =
      let media = (stop_session call_id s.media).1 in
      if bridge_stops (get call_id s.active_bridges) (call call_id)
      then (ok tt, record s { active_bridges = delete call_id s.active_bridges; media = media })
      else (err stop_failed, record s { media = media })
