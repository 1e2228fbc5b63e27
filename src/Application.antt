-- ===== src/Application.antt =====
-- src/application/communication-application-service.ts: the voice sessions of calls. `durable` is
-- `getCallDurable` of the session manager, which throws where the store does, and `provider_by_id` the look-up of a provider, first
-- among those of the phone lines and then among the adapters. `start_bridge` and `stop_bridge` are
-- the two methods that a provider with media has, and `none` and `false` stand for their throwing.
-- The turns that are written to the conversation meanwhile are not modelled.
pub mod Voice
pub mod Shutdown
use textbee_gateway.Prelude.{
  ℕ, Bool, true, false, String, Option, none, some, List, [], ◌∷◌, Result, ok, err, or_throw, ◌>>=◌,
  if◌then◌else◌, or_default,
}
use textbee_gateway.JsMap.{JsMap, get, set, delete, keys}
use textbee_gateway.Core.Types.{ProviderId, CallSession}
use textbee_gateway.Media.Capabilities.{MediaBridgeHandle}
use textbee_gateway.Media.Engine
use textbee_gateway.Media.Engine.{MediaEngine, MediaError, Randoms, start_session, stop_session}

pub data VoiceSessionError : Type 0 where
  unknown_call : String → VoiceSessionError
  provider_not_active : ProviderId → VoiceSessionError
  no_media_bridging : VoiceSessionError
  media_error : MediaError → VoiceSessionError
  store_failed : String → VoiceSessionError
  start_failed : VoiceSessionError
  stop_failed : VoiceSessionError

pub record CommunicationApplicationService : Type 0 where
  pub active_bridges : JsMap MediaBridgeHandle
  pub media : MediaEngine

-- What `startVoiceSession` answers of its media, and the service after it.
abbrev pub Started : Type 0
Started = Result VoiceSessionError (String × ℕ) × CommunicationApplicationService

module _ (call_id : String) (svc : CommunicationApplicationService) where
  -- The bridge could not be made: the media session is stopped and the error thrown again.
  bridged : String × ℕ → Option MediaBridgeHandle → MediaEngine → Started
  bridged address none media =
      (err start_failed, record svc { media = (stop_session call_id media).1 })
  bridged address (some bridge) media = (
    ok address,
    record svc { active_bridges = set call_id bridge svc.active_bridges; media = media },
  )

  with_media :
      (String → String × ℕ → Option MediaBridgeHandle)
      → Result MediaError (String × ℕ) × MediaEngine
      → Started
  unfolding bridged
  with_media start (err e, media) = (err (media_error e), record svc { media = media })
  with_media start (ok address, media) = bridged address (start call_id address) media

-- The bridge is forgotten, and the media session is stopped whether or not the provider's own stop
-- throws.
forget_bridge :
    String
    → Bool
    → CommunicationApplicationService
    → Result VoiceSessionError (Unit {0}) × CommunicationApplicationService
forget_bridge call_id stopped svc = (
  if stopped then ok tt else err stop_failed,
  record svc {
    active_bridges = delete call_id svc.active_bridges;
    media = (stop_session call_id svc.media).1;
  },
)

module _ {P : Type 0} (durable : String → Result VoiceSessionError (Option CallSession))
    (provider_by_id : ProviderId → Option P)
    (start_bridge : P → Option (String → String × ℕ → Option MediaBridgeHandle))
    (stop_bridge : P → Option (MediaBridgeHandle → Bool)) where
  unfoldable pub call_and_provider : String → Result VoiceSessionError (CallSession × P)
  call_and_provider call_id = do
    answer ← durable call_id
    call ← or_throw (unknown_call call_id) answer
    provider ← or_throw (provider_not_active call.provider) (provider_by_id call.provider)
    ok (call, provider)

  bridging : String → Result VoiceSessionError (String → String × ℕ → Option MediaBridgeHandle)
  unfolding call_and_provider
  bridging call_id = do
    found ← call_and_provider call_id
    or_throw no_media_bridging (start_bridge found.1)

  begin_media :
      Result VoiceSessionError (String → String × ℕ → Option MediaBridgeHandle)
      → (ℕ → Bool)
      → Bool
      → Randoms
      → String
      → CommunicationApplicationService
      → Started
  unfolding with_media
  begin_media (err e) free connected r call_id svc = (err e, svc)
  begin_media (ok start) free connected r call_id svc =
      with_media call_id svc start (start_session free connected r call_id svc.media)

  unfoldable pub start_voice_session :
      (ℕ → Bool) → Bool → Randoms → String → CommunicationApplicationService → Started
  unfolding bridging begin_media
  start_voice_session free connected r call_id svc =
      begin_media (bridging call_id) free connected r call_id svc

  -- Whether the stop of a bridge went through: a provider that is gone, or without media, is
  -- passed over.
  provider_stops : Option CallSession → MediaBridgeHandle → Bool
  provider_stops none bridge = true
  provider_stops (some call) bridge = elim (provider_by_id call.provider) [
    | none ↦ true
    | some p ↦ elim (stop_bridge p) [ none ↦ true | some stop ↦ stop bridge ]
  ]

  -- Where the call cannot be read nothing has been removed yet.
  stop_found :
      Result VoiceSessionError (Option CallSession)
      → MediaBridgeHandle
      → String
      → CommunicationApplicationService
      → Result VoiceSessionError (Unit {0}) × CommunicationApplicationService
  unfolding forget_bridge provider_stops
  stop_found (err e) bridge call_id svc = (err e, svc)
  stop_found (ok call) bridge call_id svc = forget_bridge call_id (provider_stops call bridge) svc

  stop_with :
      Option MediaBridgeHandle
      → String
      → CommunicationApplicationService
      → Result VoiceSessionError (Unit {0}) × CommunicationApplicationService
  unfolding stop_found
  stop_with none call_id svc = (ok tt, record svc { media = (stop_session call_id svc.media).1 })
  stop_with (some bridge) call_id svc = stop_found (durable call_id) bridge call_id svc

  unfoldable pub stop_voice_session :
      String
      → CommunicationApplicationService
      → Result VoiceSessionError (Unit {0}) × CommunicationApplicationService
  unfolding stop_with
  stop_voice_session call_id svc = stop_with (get call_id svc.active_bridges) call_id svc

  -- `shutdown`. The stops run side by side, each for a call of its own, and one that throws is
  -- passed over.
  stop_each : List String → CommunicationApplicationService → CommunicationApplicationService
  unfolding stop_voice_session
  stop_each [] svc = svc
  stop_each (call_id ∷ call_ids) svc = stop_each call_ids (stop_voice_session call_id svc).1

  unfoldable pub shutdown : CommunicationApplicationService → CommunicationApplicationService
  unfolding stop_each
  shutdown svc =
      let stopped = stop_each (keys svc.active_bridges) svc in
      record stopped { media = (Engine.shutdown stopped.media).1 }
