-- ===== src/Application/Shutdown.antt =====
-- What is left after a shutdown of the service.
use mathlib.Core.List.Memᴰ
use mathlib.Core.List.{Memᴰ}
use textbee_gateway.Prelude.{
  ℕ, ◌≡◌, ◌⊎◌, Bool, false, String, Option, none, List, [], ◌∷◌, ===_refl, Option-cases,
  Result-cases, Result, ok, err, inl, inr, arith,
}
use textbee_gateway.JsMap.{get, keys}
use textbee_gateway.JsMap.Laws.{get-delete, get-keys}
use textbee_gateway.Core.Types.{ProviderId, CallSession}
use textbee_gateway.Media.Capabilities.{MediaBridgeHandle}
use textbee_gateway.Media.Engine.{is_active}
use textbee_gateway.Media.Engine.Sessions.{shutdown-idle}
use textbee_gateway.Application.{
  CommunicationApplicationService, stop_voice_session, VoiceSessionError, stop_with, stop_found,
  forget_bridge, stop_each, shutdown,
}

module _ {P : Type 0} (durable : String → Result VoiceSessionError (Option CallSession))
    (provider_by_id : ProviderId → Option P)
    (start_bridge : P → Option (String → String × ℕ → Option MediaBridgeHandle))
    (stop_bridge : P → Option (MediaBridgeHandle → Bool)) where
  stop_voice_session-none :
      (call_id other : String) (svc : CommunicationApplicationService)
      → get other svc.active_bridges ≡ none
      → get other
          (stop_voice_session durable provider_by_id start_bridge stop_bridge call_id
            svc).1.active_bridges
        ≡ none
  unfolding stop_voice_session
  stop_voice_session-none call_id other svc h =
      elim (Option-cases (get call_id svc.active_bridges)) [
        | inl absent ↦ rw (absent, stop_with) h
        | inr (bridge, there) ↦ elim (Result-cases (durable call_id)) [
          | inl (e, unread) ↦ rw (there, stop_with, unread, stop_found) h
          | inr (call, answered) ↦
              rw (there, stop_with, answered, stop_found, forget_bridge)
                (ground (arith, get-delete call_id other svc.active_bridges))
        ]
      ]

  -- A stop of which the call can be read forgets its bridge.
  stop_voice_session-forgets :
      (call_id : String) (call : Option CallSession) (svc : CommunicationApplicationService)
      → durable call_id ≡ ok call
      → get call_id
          (stop_voice_session durable provider_by_id start_bridge stop_bridge call_id
            svc).1.active_bridges
        ≡ none
  unfolding stop_voice_session
  stop_voice_session-forgets call_id call svc answered =
      elim (Option-cases (get call_id svc.active_bridges)) [
        | inl absent ↦ rw (absent, stop_with) absent
        | inr (bridge, there) ↦
            rw (there, stop_with, answered, stop_found, forget_bridge)
              (rw (get-delete call_id call_id svc.active_bridges, ===_refl))
      ]

  stop_each-none :
      (call_ids : List String) (other : String) (call : Option CallSession)
      (svc : CommunicationApplicationService)
      → durable other ≡ ok call
      → (get other svc.active_bridges ≡ none) ⊎ Memᴰ other call_ids
      → get other
          (stop_each durable provider_by_id start_bridge stop_bridge call_ids svc).active_bridges
        ≡ none
  unfolding stop_each
  stop_each-none [] other call svc answered (inl h) = h
  stop_each-none [] other call svc answered (inr m) = absurd (Memᴰ.not-nil m)
  stop_each-none (c ∷ cs) other call svc answered (inl h) =
      stop_each-none cs other call _ answered (inl (stop_voice_session-none c other svc h))
  stop_each-none (c ∷ cs) other call svc answered (inr m) = elim (Memᴰ.cases_cons m) [
    | inl here ↦
        stop_each-none cs other call _ answered
          (inl (rw (← here) (stop_voice_session-forgets other call svc answered)))
    | inr later ↦ stop_each-none cs other call _ answered (inr later)
  ]

  -- After a shutdown no call has a media session, and no call has a bridge but one that the store
  -- failed to read, whether or not the providers' stops throw.
  pub shutdown_lem :
      (svc : CommunicationApplicationService) (call_id : String)
      → let svc' = shutdown durable provider_by_id start_bridge stop_bridge svc in
        ((get call_id svc'.active_bridges ≡ none)
          ⊎ ((e : VoiceSessionError) × (durable call_id ≡ err e)))
        × (is_active call_id svc'.media ≡ false)
  unfolding shutdown
  shutdown_lem svc call_id = (
    elim (Result-cases (durable call_id)) [
      | inl (e, unread) ↦ inr (e, unread)
      | inr (call, answered) ↦ elim (Option-cases (get call_id svc.active_bridges)) [
        | inl absent ↦
            inl (stop_each-none (keys svc.active_bridges) call_id call svc answered (inl absent))
        | inr (bridge, there) ↦ inl (
            stop_each-none (keys svc.active_bridges) call_id call svc answered
              (inr (get-keys call_id svc.active_bridges bridge there)))
      ]
    ],
    shutdown-idle _ call_id,
  )
