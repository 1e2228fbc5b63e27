-- ===== src/Application/Voice.antt =====
-- Voice sessions that do not come about, and voice sessions that are stopped.
use textbee_gateway.Prelude.{
  ℕ, ◌≡◌, ◌≢◌, refl, sym, arith, Bool, false, String, Option, none, some, Result, ok, err,
  Bool-cases, Option-cases, Result-cases, ◌⊎◌, inl, inr, ◌===◌, ===_iff, ===_refl, if◌then◌else◌,
}
use textbee_gateway.JsMap.{get}
use textbee_gateway.JsMap.Laws.{get-set_self, get-delete}
use textbee_gateway.Core.Types.{ProviderId, CallSession}
use textbee_gateway.Media.Capabilities.{MediaBridgeHandle}
use textbee_gateway.Media.Engine.{
  MediaEngine, MediaError, Randoms, start_session, is_active, fresh_session,
}
use textbee_gateway.Media.Engine.Sessions.{
  Started, start_session_active, start_session-Started, stop_session_lem,
}
use textbee_gateway.Application.{
  VoiceSessionError, CommunicationApplicationService, start_voice_session, stop_voice_session,
  bridged, with_media, begin_media, bridging, stop_with, stop_found, forget_bridge,
}

is_active-none :
    (call_id : String) (e : MediaEngine)
    → is_active call_id e ≡ false
    → get call_id e.sessions ≡ none
unfolding is_active
is_active-none call_id e h = ground arith

-- A start of media that returns found no session of the call.
start_session_idle :
    (free : ℕ → Bool) (connected : Bool) (r : Randoms) (call_id : String) (e : MediaEngine)
    (address : String × ℕ)
    → (start_session free connected r call_id e).0 ≡ ok address
    → get call_id e.sessions ≡ none
start_session_idle free connected r call_id e address h = elim (Bool-cases (is_active call_id e)) [
  | inl active ↦ cc (rw (start_session_active free connected r call_id e active) at h)
  | inr idle ↦ is_active-none call_id e idle
]

-- Where the start throws, the sessions and the bridges are as they were; where it returns, the call
-- has a bridge.
abbrev pub IsClean :
    CommunicationApplicationService
    → String
    → String
    → Result VoiceSessionError (String × ℕ) × CommunicationApplicationService
    → Type 0
IsClean svc call_id other (err e, svc') =
    (get other svc'.media.sessions ≡ get other svc.media.sessions)
    × (svc'.active_bridges ≡ svc.active_bridges)
IsClean svc call_id other (ok address, svc') = get call_id svc'.active_bridges ≢ none

module _ (svc : CommunicationApplicationService) (call_id other : String) where
  bridged-IsClean :
      (r : Randoms) (host : String) (port : ℕ) (bridge : Option MediaBridgeHandle)
      (media : MediaEngine)
      → get call_id svc.media.sessions ≡ none
      → get other media.sessions ≡ (
          if call_id === other
          then some (fresh_session call_id port r)
          else get other svc.media.sessions)
      → IsClean svc call_id other (bridged call_id svc (host, port) bridge media)
  unfolding bridged
  bridged-IsClean r host port (some bridge) media idle started =
      λ h. cc (get-set_self call_id bridge svc.active_bridges, h)
  bridged-IsClean r host port none media idle started = elim (Bool-cases (call_id === other)) [
    | inl same ↦
        let e : call_id ≡ other = (===_iff call_id other).0 same in
        (rw ((stop_session_lem call_id media other).1, same) (rw e at (sym idle)), refl)
    | inr different ↦
        (rw ((stop_session_lem call_id media other).1, different) (rw (different) at started), refl)
  ]

  with_media-IsClean :
      (start : String → String × ℕ → Option MediaBridgeHandle) (r : Randoms)
      (o : Result MediaError (String × ℕ) × MediaEngine)
      → Started svc.media r call_id other o
      → ((address : String × ℕ) → o.0 ≡ ok address → get call_id svc.media.sessions ≡ none)
      → IsClean svc call_id other (with_media call_id svc start o)
  unfolding with_media
  with_media-IsClean start r (err e, media) h idle = (h, refl)
  with_media-IsClean start r (ok (host, port), media) h idle =
      bridged-IsClean r host port (start call_id (host, port)) media (idle (host, port) refl) h

module _ {P : Type 0} (durable : String → Result VoiceSessionError (Option CallSession))
    (provider_by_id : ProviderId → Option P)
    (start_bridge : P → Option (String → String × ℕ → Option MediaBridgeHandle))
    (stop_bridge : P → Option (MediaBridgeHandle → Bool)) where
  -- A voice session that does not come about, at whatever point it fails, leaves no trace: every
  -- media session and every bridge is as it was. One that does leaves a bridge for the call.
  pub start_voice_session-IsClean :
      (free : ℕ → Bool) (connected : Bool) (r : Randoms) (call_id other : String)
      (svc : CommunicationApplicationService)
      → IsClean svc call_id other (
          start_voice_session durable provider_by_id start_bridge stop_bridge free connected r
            call_id svc)
  unfolding start_voice_session
  start_voice_session-IsClean free connected r call_id other svc =
      elim (bridging durable provider_by_id start_bridge stop_bridge call_id)
        as (λ found. IsClean svc call_id other (
          begin_media durable provider_by_id start_bridge stop_bridge found free connected r call_id
            svc)) [
              | err e ↦ unfold begin_media in (refl, refl)
              | ok start ↦
                  unfold begin_media in
                  with_media-IsClean svc call_id other start r
                    (start_session free connected r call_id svc.media)
                    (start_session-Started free connected r call_id svc.media other)
                    (start_session_idle free connected r call_id svc.media)
            ]

  -- After a voice session is stopped the call has neither a bridge nor a media session, even where
  -- the provider's own stop throws. (Only where the call of a bridge cannot be read, the stop throws
  -- that failure, and nothing changes.)
  pub stop_voice_session-idle :
      (call_id : String) (svc : CommunicationApplicationService)
      → let (result, svc') =
          stop_voice_session durable provider_by_id start_bridge stop_bridge call_id svc in
        ((get call_id svc'.active_bridges ≡ none) × (get call_id svc'.media.sessions ≡ none))
        ⊎ ((e : VoiceSessionError) × (durable call_id ≡ err e) × (result ≡ err e) × (svc' ≡ svc))
  unfolding stop_voice_session
  stop_voice_session-idle call_id svc = elim (Option-cases (get call_id svc.active_bridges)) [
    | inl absent ↦
        rw (absent, stop_with)
          (inl (absent, rw ((stop_session_lem call_id svc.media call_id).1, ===_refl)))
    | inr (bridge, there) ↦ elim (Result-cases (durable call_id)) [
      | inl (e, unread) ↦ rw (there, stop_with, unread, stop_found) (inr (e, refl, refl, refl))
      | inr (call, answered) ↦
          rw (there, stop_with, answered, stop_found, forget_bridge)
            (inl (
              rw (get-delete call_id call_id svc.active_bridges, ===_refl),
              rw ((stop_session_lem call_id svc.media call_id).1, ===_refl),
            ))
    ]
  ]
