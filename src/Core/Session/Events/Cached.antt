-- ===== src/Core/Session/Events/Cached.antt =====
-- What the cache has of calls after an event, of whatever call.
use mathlib.Core.Option.{some-injective, none-ne-some}
use textbee_gateway.Prelude.{
  ℕ, ◌≡◌, ◌≢◌, refl, sym, ◌∙◌, String, Option, none, some, List, [], ◌∷◌, ◌==◌, Bool-cases,
  Option-cases, inl, inr,
}
use textbee_gateway.JsMap.{JsMap, get}
use textbee_gateway.JsMap.Laws.{get-set_self, get-set_ne}
use textbee_gateway.Core.Types.{
  ProviderId, CallSession, CallState, MessageRecord, MessageStatus, AdapterEvent, call_incoming,
  call_state_changed, call_dtmf, call_ended, message_incoming, message_status,
}
use textbee_gateway.Core.Session.{Manager}
use textbee_gateway.Core.Session.Events.{
  end_call, change_call, apply_event_to_local_state, save_if, finish_status, wait_for,
  persist_status, persist_event, on_bus_event, deliver, publish_event, handle_adapter_event,
}
use textbee_gateway.Persistence.Types.{PersistenceStore}

-- The call that an event is about.
abbrev pub about : AdapterEvent → Option String
about (call_incoming c) = some c.id
about (call_state_changed id state) = some id
about (call_dtmf id digit) = some id
about (call_ended id reason) = some id
about (message_incoming r) = none
about (message_status id status) = none

module _ {S W : Type 0} (store : PersistenceStore S) (now : ℕ → String) where
  persist_status-calls :
      (o : Option MessageRecord) (id : String) (status : MessageStatus) (m : Manager S W)
      → (persist_status store now o id status m).calls ≡ m.calls
  unfolding persist_status wait_for finish_status
  persist_status-calls (some r) id status m = refl
  persist_status-calls none id status m = elim (Option-cases (store.get_message id m.store)) [
    | inl absent ↦ rw (absent, wait_for)
    | inr (r, found) ↦ rw (found, wait_for)
  ]

  save_if-calls :
      (o : Option CallSession) (m : Manager S W) → (save_if store now o m).calls ≡ m.calls
  unfolding save_if
  save_if-calls none m = refl
  save_if-calls (some c) m = refl

  persist_event-calls :
      (e : AdapterEvent) (m : Manager S W) → (persist_event store now e m).calls ≡ m.calls
  unfolding persist_event
  persist_event-calls (call_incoming c) m = refl
  persist_event-calls (call_state_changed id state) m = save_if-calls (get id m.calls) m
  persist_event-calls (call_dtmf id digit) m = refl
  persist_event-calls (call_ended id reason) m = save_if-calls (get id m.calls) m
  persist_event-calls (message_incoming r) m = refl
  persist_event-calls (message_status id status) m =
      persist_status-calls (get id m.messages) id status m

  -- What an application of the event makes of the cache, and a further one keeps, holds of the
  -- cache after the event is handled.
  module _ {κ} (P : JsMap CallSession → Type κ) (provider : ProviderId) (e : AdapterEvent)
      (keeps : (m : Manager S W)
        → P m.calls
        → P (apply_event_to_local_state store now e m).calls) where
    deliver-keeps :
        (hs : List ℕ) (m : Manager S W) → P m.calls → P (deliver store now provider e hs m).calls
    unfolding deliver on_bus_event
    deliver-keeps [] m p = p
    deliver-keeps (h ∷ hs) m p = elim (Bool-cases (h == m.handler)) [
      | inl own ↦ rw (own, deliver) (deliver-keeps hs _ (keeps m p))
      | inr other ↦ rw (other, deliver) (deliver-keeps hs m p)
    ]

    handle_adapter_event-makes :
        (m : Manager S W)
        → P (apply_event_to_local_state store now e m).calls
        → P (handle_adapter_event store now provider e m).calls
    unfolding handle_adapter_event publish_event
    handle_adapter_event-makes m p =
        deliver-keeps _ _ (rw (persist_event-calls e (apply_event_to_local_state store now e m)) p)

  -- An event about one call leaves the others in the cache alone.
  apply-other :
      (id j : String) (e : AdapterEvent) (m : Manager S W)
      → about e ≡ some id
      → id ≢ j
      → get j (apply_event_to_local_state store now e m).calls ≡ get j m.calls
  unfolding apply_event_to_local_state
  apply-other id j (call_incoming c) m a d =
      get-set_ne c.id j c m.calls (λ q. d (some-injective id c.id (sym a) ∙ q))
  apply-other id j (call_state_changed k state) m a d = elim (Option-cases (get k m.calls)) [
    | inl absent ↦ rw (absent, change_call)
    | inr (c, found) ↦
        rw (found, change_call)
          (get-set_ne k j _ m.calls (λ q. d (some-injective id k (sym a) ∙ q)))
  ]
  apply-other id j (call_dtmf k digit) m a d = refl
  apply-other id j (call_ended k reason) m a d = elim (Option-cases (get k m.calls)) [
    | inl absent ↦ rw (absent, end_call)
    | inr (c, found) ↦
        rw (found, end_call) (get-set_ne k j _ m.calls (λ q. d (some-injective id k (sym a) ∙ q)))
  ]
  apply-other id j (message_incoming r) m a d = refl
  apply-other id j (message_status k status) m a d = absurd (none-ne-some id a)

  pub handle_adapter_event-other :
      (provider : ProviderId) (id j : String) (e : AdapterEvent) (m : Manager S W)
      → about e ≡ some id
      → id ≢ j
      → get j (handle_adapter_event store now provider e m).calls ≡ get j m.calls
  handle_adapter_event-other provider id j e m a d =
      handle_adapter_event-makes (λ calls. get j calls ≡ get j m.calls) provider e
        (λ m' p. apply-other id j e m' a d ∙ p) m (apply-other id j e m a d)

  pub handle_adapter_event-incoming :
      (provider : ProviderId) (c : CallSession) (m : Manager S W)
      → get c.id (handle_adapter_event store now provider (call_incoming c) m).calls ≡ some c
  unfolding apply_event_to_local_state
  handle_adapter_event-incoming provider c m =
      handle_adapter_event-makes (λ calls. get c.id calls ≡ some c) provider (call_incoming c)
        (λ m' p. get-set_self c.id c m'.calls) m (get-set_self c.id c m.calls)

  apply-state :
      (id : String) (state : CallState) (c : CallSession) (m : Manager S W)
      → get id m.calls ≡ some c
      → get id (apply_event_to_local_state store now (call_state_changed id state) m).calls
        ≡ some (record c { state = state })
  unfolding apply_event_to_local_state
  apply-state id state c m h = rw (h, change_call) (get-set_self id _ m.calls)

  pub handle_adapter_event-state :
      (provider : ProviderId) (id : String) (state : CallState) (c : CallSession) (m : Manager S W)
      → get id m.calls ≡ some c
      → get id (handle_adapter_event store now provider (call_state_changed id state) m).calls
        ≡ some (record c { state = state })
  handle_adapter_event-state provider id state c m h =
      handle_adapter_event-makes (λ calls. get id calls ≡ some (record c { state = state }))
        provider (call_state_changed id state)
        (λ m' p. apply-state id state (record c { state = state }) m' p) m
        (apply-state id state c m h)

  pub handle_adapter_event-dtmf :
      (provider : ProviderId) (id digit j : String) (m : Manager S W)
      → get j (handle_adapter_event store now provider (call_dtmf id digit) m).calls ≡ get j m.calls
  unfolding apply_event_to_local_state
  handle_adapter_event-dtmf provider id digit j m =
      handle_adapter_event-makes (λ calls. get j calls ≡ get j m.calls) provider
        (call_dtmf id digit) (λ m' p. p) m refl
