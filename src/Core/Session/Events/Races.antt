-- ===== src/Core/Session/Events/Races.antt =====
-- Status webhooks for a message that is not in the cache: the core asks the store, and goes on when
-- it has answered. What the store gave is a record of its own, as a row of the SQL store is; the
-- in-memory store, which answers twice with one object, is not meant here.
use textbee_gateway.Prelude.{
  ℕ, ◌≡◌, refl, ap, ◌∙◌, String, none, some, List, [], ◌∷◌, ◌++◌, ◌==◌, ===_refl, Bool-cases, inl,
  inr,
}
use textbee_gateway.JsMap.{get}
use textbee_gateway.JsMap.Laws.{get-set_self}
use textbee_gateway.Core.Types.{ProviderId, MessageRecord, MessageStatus, message_status}
use textbee_gateway.Core.Session.{Manager, Pending}
use textbee_gateway.Core.Session.Events.{
  merged, change_message, apply_event_to_local_state, finish_status, persist_status, persist_event,
  on_bus_event, deliver, publish_event, handle_adapter_event, resume, resume_with, wait_for,
}
use textbee_gateway.Core.Session.Events.Statuses.{Has}
use textbee_gateway.Persistence.Types.{PersistenceStore}

abbrev waiting : MessageRecord → MessageStatus → Pending
waiting r st = record { loaded = r; status = st }

module _ {S W : Type 0} (store : PersistenceStore S) (now : ℕ → String) where
  -- Nothing but notices and what waits was added.
  record Waits (m m' : Manager S W) (more : List Pending) : Type 0 where
    messages : m'.messages ≡ m.messages
    store_same : m'.store ≡ m.store
    pending : m'.pending ≡ m.pending ++ more

  apply-miss :
      (id : String) (st : MessageStatus) (m : Manager S W)
      → get id m.messages ≡ none
      → apply_event_to_local_state store now (message_status id st) m ≡ m
  unfolding apply_event_to_local_state
  apply-miss id st m h = rw (h, change_message)

  persist-miss :
      (id : String) (st : MessageStatus) (m : Manager S W) {r : MessageRecord}
      → get id m.messages ≡ none
      → store.get_message id m.store ≡ some r
      → persist_event store now (message_status id st) m
        ≡ record m { pending = m.pending ++ waiting r st ∷ [] }
  unfolding persist_event
  persist-miss id st m h k = rw (h, persist_status, k, wait_for)

  deliver-miss :
      (provider : ProviderId) (id : String) (st : MessageStatus) (hs : List ℕ) (m m' : Manager S W)
      {more : List Pending}
      → get id m.messages ≡ none
      → Waits m m' more
      → Waits m (deliver store now provider (message_status id st) hs m') more
  unfolding deliver
  deliver-miss provider id st [] m m' h w = w
  deliver-miss provider id st (k ∷ hs) m m' h w = elim (Bool-cases (k == m'.handler)) [
    | inl own ↦ rw own (
        deliver-miss provider id st hs m _ h (
          unfold on_bus_event in
          rw (apply-miss id st m' (rw w.messages h))
            (record { messages = w.messages; store_same = w.store_same; pending = w.pending })))
    | inr other ↦ rw other (deliver-miss provider id st hs m m' h w)
  ]

  handle-miss :
      (provider : ProviderId) (id : String) (st : MessageStatus) (m : Manager S W)
      {r : MessageRecord}
      → get id m.messages ≡ none
      → store.get_message id m.store ≡ some r
      → Waits m
          (handle_adapter_event store now provider (message_status id st) m)
          (waiting r st ∷ [])
  unfolding handle_adapter_event publish_event
  handle-miss provider id st m h k =
      rw (apply-miss id st m h, persist-miss id st m h k)
        (deliver-miss provider id st _ m _ h
          (record { messages = refl; store_same = refl; pending = refl }))

  resume-Has :
      (m : Manager S W) {r : MessageRecord} {st : MessageStatus} {rest : List Pending}
      → m.pending ≡ waiting r st ∷ rest
      → Has store now (resume store now m) r.id (merged r st)
        × ((resume store now m).pending ≡ rest)
  unfolding resume
  resume-Has m {r} {st} e =
      rw (e, resume_with)
        (
          unfold finish_status in
              record {
                cached = get-set_self r.id (merged r st) m.messages;
                durable = rw store.get_message-save_message (rw ===_refl);
              },
          unfold finish_status in refl,
        )

  -- A webhook for a message that the store has and the cache has not, with nothing in between: the
  -- message is in the cache and in the store with the merged state.
  pub resume-handle :
      (provider : ProviderId) (st : MessageStatus) (m : Manager S W) (r : MessageRecord)
      → get r.id m.messages ≡ none
      → store.get_message r.id m.store ≡ some r
      → m.pending ≡ []
      → Has store now
          (resume store now (handle_adapter_event store now provider (message_status r.id st) m))
          r.id
          (merged r st)
  resume-handle provider st m r h k idle =
      let w = handle-miss provider r.id st m h k in
      (resume-Has _ {rest = []} (w.pending ∙ ap (λ p. p ++ waiting r st ∷ []) idle)).0

  -- Two webhooks for a message that the store has and the cache has not, the second before the
  -- store has answered for the first, and a store that answers each with a record of its own: the
  -- first is lost. The message ends, in the cache and in the store, in the state that the second
  -- alone gives.
  pub overlapping_webhooks :
      (provider : ProviderId) (a b : MessageStatus) (m : Manager S W) (r : MessageRecord)
      → get r.id m.messages ≡ none
      → store.get_message r.id m.store ≡ some r
      → m.pending ≡ []
      → Has store now
          (resume store now (
            resume store now (
              handle_adapter_event store now provider
                (message_status r.id b)
                (handle_adapter_event store now provider (message_status r.id a) m))))
          r.id
          (merged r b)
  overlapping_webhooks provider a b m r h k idle =
      let first = handle-miss provider r.id a m h k in
      let m1 = handle_adapter_event store now provider (message_status r.id a) m in
      let second = handle-miss provider r.id b m1 (rw first.messages h) (rw first.store_same k) in
      let (_, rest) = resume-Has _ (
        second.pending
        ∙ ap (λ p. p ++ waiting r b ∷ []) (first.pending ∙ ap (λ p. p ++ waiting r a ∷ []) idle)) in
      (resume-Has _ rest).0
