-- ===== src/Core/Session/Events/Statuses.antt =====
-- Status webhooks at the core: what the cache and the store have of a message after them.
use mathlib.Core.List.{Perm}
use mathlib.Core.Path.{subst}
use textbee_gateway.Prelude.{
  ℕ, ◌≡◌, sym, ap, ◌∙◌, String, some, List, [], ◌∷◌, map, ◌==◌, ===_refl, Bool-cases, inl, inr,
}
use textbee_gateway.JsMap.{get, set}
use textbee_gateway.JsMap.Laws.{get-set_self}
use textbee_gateway.Core.Types.{
  ProviderId, MessageRecord, MessageStatus, AdapterEvent, message_status,
}
use textbee_gateway.Core.Status.{settle}
use textbee_gateway.Core.Status.Order.{merge_message_status_again, settle-perm}
use textbee_gateway.Core.Session.{Manager}
use textbee_gateway.Core.Session.Events.{
  merged, change_message, apply_event_to_local_state, finish_status, persist_event, on_bus_event,
  deliver, publish_event, handle_adapter_event, handle_all,
}
use textbee_gateway.Persistence.Types.{PersistenceStore, status_of}

pub merged_again : (r : MessageRecord) (st : MessageStatus) → merged (merged r st) st ≡ merged r st
merged_again r st = ap (λ s. record r { status = s }) (merge_message_status_again r.status st)

abbrev pub webhooks : String → List MessageStatus → List AdapterEvent
webhooks id sts = map (message_status id) sts

module _ {S W : Type 0} (store : PersistenceStore S) (now : ℕ → String) where
  -- The message under an identifier, in the cache and in the store.
  pub record Has (m : Manager S W) (id : String) (r : MessageRecord) : Type 0 where
    pub cached : get id m.messages ≡ some r
    pub durable : status_of (store.get_message id m.store) ≡ some r.status

  apply-status :
      (id : String) (st : MessageStatus) (m : Manager S W) {r : MessageRecord}
      → get id m.messages ≡ some r
      → apply_event_to_local_state store now (message_status id st) m
        ≡ record m { messages = set id (merged r st) m.messages }
  unfolding apply_event_to_local_state
  apply-status id st m h = rw (h, change_message)

  persist-status :
      (st : MessageStatus) (m : Manager S W) {r : MessageRecord}
      → get r.id m.messages ≡ some r
      → Has (persist_event store now (message_status r.id st) m) r.id (merged r st)
  unfolding persist_event
  persist-status st m {r} h = rw h (
      unfold finish_status in
      record {
        cached = get-set_self r.id (merged r st) m.messages;
        durable = rw store.get_message-save_message (rw ===_refl);
      })

  on_bus_event-status :
      (provider : ProviderId) (id : String) (st : MessageStatus) (m : Manager S W)
      {r : MessageRecord}
      → merged r st ≡ r
      → Has m id r
      → Has (on_bus_event store now provider (message_status id st) m) id r
  unfolding on_bus_event
  on_bus_event-status provider id st m {r} e h =
      rw (apply-status id st m h.cached)
        (record { cached = rw (get-set_self id (merged r st) m.messages, e); durable = h.durable })

  deliver-status :
      (provider : ProviderId) (id : String) (st : MessageStatus) (hs : List ℕ) (m : Manager S W)
      {r : MessageRecord}
      → merged r st ≡ r
      → Has m id r
      → Has (deliver store now provider (message_status id st) hs m) id r
  unfolding deliver
  deliver-status provider id st [] m e h = h
  deliver-status provider id st (k ∷ hs) m e h = elim (Bool-cases (k == m.handler)) [
    | inl own ↦
        rw own (deliver-status provider id st hs _ e (on_bus_event-status provider id st m e h))
    | inr other ↦ rw other (deliver-status provider id st hs m e h)
  ]

  handle_adapter_event-Has :
      (provider : ProviderId) (st : MessageStatus) (m : Manager S W) {r : MessageRecord}
      → get r.id m.messages ≡ some r
      → Has (handle_adapter_event store now provider (message_status r.id st) m) r.id (merged r st)
  unfolding handle_adapter_event publish_event
  handle_adapter_event-Has provider st m {r} h =
      let local = apply-status r.id st m h in
      let found : get r.id (set r.id (merged r st) m.messages) ≡ some (merged r st) =
        get-set_self r.id (merged r st) m.messages in
      let kept =
        persist-status st (record m { messages = set r.id (merged r st) m.messages })
          {r = merged r st} found in
      rw local (
        deliver-status provider r.id st _ _ (merged_again r st) (
          subst
            (Has
              (persist_event store now (message_status r.id st)
                (record m { messages = set r.id (merged r st) m.messages }))
              r.id)
            (merged_again r st) kept))

  -- A message that the core holds, after status webhooks for it: both the cache and the store have
  -- the state that the webhooks settle on, each merged once however often the core applies it on
  -- the way; the rest of the message is as it was.
  pub handle_all-settle :
      (provider : ProviderId) (sts : List MessageStatus) (m : Manager S W) (r : MessageRecord)
      → Has m r.id r
      → Has
          (handle_all store now provider (webhooks r.id sts) m)
          r.id
          (record r { status = settle r.status sts })
  handle_all-settle provider [] m r h = h
  handle_all-settle provider (st ∷ sts) m r h =
      handle_all-settle provider sts
        (handle_adapter_event store now provider (message_status r.id st) m) (merged r st)
        (handle_adapter_event-Has provider st m h.cached)

  -- Two orders of arrival of the same webhooks leave the message in the same state, in the cache
  -- and in the store.
  pub handle_all-perm :
      (provider : ProviderId) (xs ys : List MessageStatus) (m : Manager S W) (r : MessageRecord)
      → Has m r.id r
      → Perm xs ys
      → (get r.id (handle_all store now provider (webhooks r.id xs) m).messages
          ≡ get r.id (handle_all store now provider (webhooks r.id ys) m).messages)
        × (status_of
              (store.get_message r.id (handle_all store now provider (webhooks r.id xs) m).store)
            ≡ status_of
                (store.get_message r.id (handle_all store now provider (webhooks r.id ys) m).store))
  handle_all-perm provider xs ys m r h p =
      let left = handle_all-settle provider xs m r h in
      let right = handle_all-settle provider ys m r h in
      let same = settle-perm r.status xs ys p in
      (
        left.cached ∙ ap (λ s. some (record r { status = s })) same ∙ sym right.cached,
        left.durable ∙ ap some same ∙ sym right.durable,
      )
