-- ===== src/Persistence/Postgres/Laws.antt =====
-- The SQL store is a `PersistenceStore`, and what a second save of a record changes.
use mathlib.Core.Option
use textbee_gateway.Prelude.{
  ℕ, ◌≡◌, refl, ap, String, arith, [], ◌∷◌, ◌++◌, ◌===◌, if◌then◌else◌, Option, some, none,
  or_default, Option-cases, inl, inr, Bool-cases,
}
use textbee_gateway.JsMap.{get}
use textbee_gateway.JsMap.Laws.{get-set, get-set_self}
use textbee_gateway.Core.Types.{CallSession, MessageRecord}
use textbee_gateway.Persistence.Types.{PersistenceStore, state_of, status_of}
use textbee_gateway.Persistence.Postgres.{
  PostgresStore, save_call, get_call, save_message, get_message, subscribe_events, handlers,
  upsert_call, upsert_message, row_to_call, row_to_message,
}

upsert_call-state : (o : Option CallSession) (c : CallSession) → (upsert_call o c).state ≡ c.state
unfolding upsert_call
upsert_call-state none c = refl
upsert_call-state (some old) c = refl

upsert_message-status :
    (o : Option MessageRecord) (r : MessageRecord) → (upsert_message o r).status ≡ r.status
unfolding upsert_message
upsert_message-status none r = refl
upsert_message-status (some old) r = refl

module _ (iso : String → String) where
  row_to_call-state :
      (o : Option CallSession) → state_of (Option.map (row_to_call iso) o) ≡ state_of o
  unfolding row_to_call
  row_to_call-state none = refl
  row_to_call-state (some c) = refl

  row_to_message-status :
      (o : Option MessageRecord) → status_of (Option.map (row_to_message iso) o) ≡ status_of o
  unfolding row_to_message
  row_to_message-status none = refl
  row_to_message-status (some c) = refl

  pub save_call-state :
      (j : String) (c : CallSession) (s : PostgresStore)
      → state_of (get_call iso j (save_call c s))
        ≡ (if c.id === j then some c.state else state_of (get_call iso j s))
  unfolding save_call get_call
  save_call-state j c s = rw row_to_call-state (
      ground (
        arith,
        get-set c.id j (upsert_call (get c.id s.calls) c) s.calls,
        upsert_call-state (get c.id s.calls) c,
      ))

  pub save_message-status :
      (j : String) (m : MessageRecord) (s : PostgresStore)
      → status_of (get_message iso j (save_message m s))
        ≡ (if m.id === j then some m.status else status_of (get_message iso j s))
  unfolding save_message get_message
  save_message-status j m s = rw row_to_message-status (
      ground (
        arith,
        get-set m.id j (upsert_message (get m.id s.messages) m) s.messages,
        upsert_message-status (get m.id s.messages) m,
      ))

  pub subscribe_events-handlers :
      (k : String) (h : ℕ) (s : PostgresStore)
      → handlers k (subscribe_events k h s) ≡ handlers k s ++ h ∷ []
  unfolding handlers subscribe_events
  subscribe_events-handlers k h s =
      rw (get-set_self k (or_default (get k s.subscribers) [] ++ h ∷ []) s.subscribers)

  -- A call that the table has keeps its first version but for the three columns of the update,
  -- whatever the new version says of the others; and no other call changes.
  pub save_call_again :
      (c old : CallSession) (j : String) (s : PostgresStore)
      → get_call iso c.id s ≡ some old
      → get_call iso j (save_call c s) ≡ (
          if c.id === j
          then some (record old {
            state = c.state;
            ended_at = Option.map iso c.ended_at;
            media_stream_url = c.media_stream_url;
          })
          else get_call iso j s)
  unfolding get_call save_call
  save_call_again c old j s h = elim (Option-cases (get c.id s.calls)) [
    | inl missing ↦ cc (rw missing at h)
    | inr (row, found) ↦
        let e : row_to_call iso row ≡ old = cc (rw found at h) in
        elim (Bool-cases (c.id === j)) [
          | inl same ↦
              rw (get-set, same, found)
                (unfold row_to_call upsert_call in
                  ap
                    (λ (o : CallSession). some (record o {
                      state = c.state;
                      ended_at = Option.map iso c.ended_at;
                      media_stream_url = c.media_stream_url;
                    }))
                    e)
          | inr other ↦ rw (get-set, other) refl
        ]
  ]

  pub save_message-call :
      (j : String) (m : MessageRecord) (s : PostgresStore)
      → get_call iso j (save_message m s) ≡ get_call iso j s
  unfolding get_call save_message
  save_message-call j m s = refl

  pub save_call-message :
      (j : String) (c : CallSession) (s : PostgresStore)
      → get_message iso j (save_call c s) ≡ get_message iso j s
  unfolding get_message save_call
  save_call-message j c s = refl

pub save_call-handlers :
    (k : String) (c : CallSession) (s : PostgresStore) → handlers k (save_call c s) ≡ handlers k s
unfolding handlers save_call
save_call-handlers k c s = refl

pub save_message-handlers :
    (k : String) (m : MessageRecord) (s : PostgresStore)
    → handlers k (save_message m s) ≡ handlers k s
unfolding handlers save_message
save_message-handlers k m s = refl

abbrev pub postgres_store : (String → String) → PersistenceStore PostgresStore
postgres_store iso = record {
  save_call = save_call;
  get_call = get_call iso;
  save_message = save_message;
  get_message = get_message iso;
  subscribe_events = subscribe_events;
  handlers = handlers;
  get_call-save_call = save_call-state iso;
  get_call-save_message = save_message-call iso;
  get_message-save_message = save_message-status iso;
  get_message-save_call = save_call-message iso;
  handlers-save_call = save_call-handlers;
  handlers-save_message = save_message-handlers;
  handlers-subscribe_events = subscribe_events-handlers iso;
}
