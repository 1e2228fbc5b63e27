-- ===== src/Persistence/Memory/Laws.antt =====
-- The store without dependencies is a `PersistenceStore`.
use textbee_gateway.Prelude.{
  ℕ, ◌≡◌, refl, String, arith, [], ◌∷◌, ◌++◌, ◌===◌, if◌then◌else◌, some, or_default,
}
use textbee_gateway.JsMap.{get}
use textbee_gateway.JsMap.Laws.{get-set, get-set_self}
use textbee_gateway.Core.Types.{CallSession, MessageRecord}
use textbee_gateway.Persistence.Types.{PersistenceStore, state_of, status_of}
use textbee_gateway.Persistence.Memory.{
  MemoryStore, save_call, get_call, save_message, get_message, subscribe_events, handlers,
}

module _ {Config : Type 0} where
  pub save_call-state :
      (j : String) (c : CallSession) (s : MemoryStore Config)
      → state_of (get_call j (save_call c s))
        ≡ (if c.id === j then some c.state else state_of (get_call j s))
  unfolding save_call get_call
  save_call-state j c s = ground (arith, get-set c.id j c s.calls)

  pub save_message-status :
      (j : String) (m : MessageRecord) (s : MemoryStore Config)
      → status_of (get_message j (save_message m s))
        ≡ (if m.id === j then some m.status else status_of (get_message j s))
  unfolding save_message get_message
  save_message-status j m s = ground (arith, get-set m.id j m s.messages)

  pub subscribe_events-handlers :
      (k : String) (h : ℕ) (s : MemoryStore Config)
      → handlers k (subscribe_events k h s) ≡ handlers k s ++ h ∷ []
  unfolding handlers subscribe_events
  subscribe_events-handlers k h s =
      rw (get-set_self k (or_default (get k s.subscribers) [] ++ h ∷ []) s.subscribers)

  pub save_message-call :
      (j : String) (m : MessageRecord) (s : MemoryStore Config)
      → get_call j (save_message m s) ≡ get_call j s
  unfolding get_call save_message
  save_message-call j m s = refl

  pub save_call-message :
      (j : String) (c : CallSession) (s : MemoryStore Config)
      → get_message j (save_call c s) ≡ get_message j s
  unfolding get_message save_call
  save_call-message j c s = refl

  pub save_call-handlers :
      (k : String) (c : CallSession) (s : MemoryStore Config)
      → handlers k (save_call c s) ≡ handlers k s
  unfolding handlers save_call
  save_call-handlers k c s = refl

  pub save_message-handlers :
      (k : String) (m : MessageRecord) (s : MemoryStore Config)
      → handlers k (save_message m s) ≡ handlers k s
  unfolding handlers save_message
  save_message-handlers k m s = refl

abbrev pub memory_store : (Config : Type 0) → PersistenceStore (MemoryStore Config)
memory_store Config = record {
  save_call = save_call;
  get_call = get_call;
  save_message = save_message;
  get_message = get_message;
  subscribe_events = subscribe_events;
  handlers = handlers;
  get_call-save_call = save_call-state;
  get_call-save_message = save_message-call;
  get_message-save_message = save_message-status;
  get_message-save_call = save_call-message;
  handlers-save_call = save_call-handlers;
  handlers-save_message = save_message-handlers;
  handlers-subscribe_events = subscribe_events-handlers;
}
