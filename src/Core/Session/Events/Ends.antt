-- ===== src/Core/Session/Events/Ends.antt =====
-- The time at which a call ended, in the cache and in the store.
use textbee_gateway.Prelude.{ℕ, ◌+◌, ◌≡◌, arith, String, Option, some, [], ◌∷◌, ◌==◌, true}
use textbee_gateway.JsMap.{get, set}
use textbee_gateway.JsMap.Laws.{get-set_self}
use textbee_gateway.Core.Types.{ProviderId, CallSession, ended, call_ended}
use textbee_gateway.Core.Session.{Manager}
use textbee_gateway.Core.Session.Events.{
  apply_event_to_local_state, persist_event, on_bus_event, deliver, publish_event,
  handle_adapter_event, end_call, save_if, events_channel,
}
use textbee_gateway.Persistence.Memory.{MemoryStore, save_call, get_call, handlers}
use textbee_gateway.Persistence.Memory.Laws.{memory_store, save_call-handlers}

abbrev pub ended_call : CallSession → String → CallSession
ended_call c at = record c { state = ended; ended_at = some at }

module _ {W Config : Type 0} (now : ℕ → String) where
  apply-end :
      (reason : Option String) (m : Manager (MemoryStore Config) W) (c : CallSession)
      → get c.id m.calls ≡ some c
      → apply_event_to_local_state (memory_store Config) now (call_ended c.id reason) m ≡ record m {
        calls = set c.id (ended_call c (now m.readings)) m.calls;
        readings = m.readings + 1;
      }
  unfolding apply_event_to_local_state
  apply-end reason m c h = rw (h, end_call)

  persist-end :
      (reason : Option String) (m : Manager (MemoryStore Config) W) (c : CallSession)
      → get c.id m.calls ≡ some c
      → persist_event (memory_store Config) now (call_ended c.id reason) m
        ≡ record m { store = save_call c m.store }
  unfolding persist_event
  persist-end reason m c h = rw (h, save_if)

  -- A core that is on its store's bus ends a call twice: once before it saves the call and once when
  -- the bus brings the event back. The store has the time of the first reading of the clock, and
  -- the cache that of the second.
  pub handle_adapter_event-ended_at :
      (provider : ProviderId) (reason : Option String) (m : Manager (MemoryStore Config) W)
      (c : CallSession)
      → get c.id m.calls ≡ some c
      → handlers events_channel m.store ≡ m.handler ∷ []
      → let m' =
          handle_adapter_event (memory_store Config) now provider (call_ended c.id reason) m in
        (get_call c.id m'.store ≡ some (ended_call c (now m.readings)))
        × (get c.id m'.calls ≡ some (ended_call c (now (m.readings + 1))))
  unfolding handle_adapter_event publish_event deliver on_bus_event
  handle_adapter_event-ended_at provider reason m c h bus =
      let c1 = ended_call c (now m.readings) in
      let m1 : Manager (MemoryStore Config) W = record m {
        calls = set c.id c1 m.calls;
        readings = m.readings + 1;
      } in
      let m2 : Manager (MemoryStore Config) W = record m1 { store = save_call c1 m.store } in
      let found : get c.id m1.calls ≡ some c1 = get-set_self c.id c1 m.calls in
      let own : (m.handler == m.handler) ≡ true = ground arith in
      rw
        (
          apply-end reason m c h,
          persist-end reason m1 c1 found,
          save_call-handlers events_channel c1 m.store,
          bus,
          own,
          apply-end reason m2 c1 found,
        )
        (
          unfold get_call save_call in get-set_self c.id c1 m.store.calls,
          get-set_self c.id (ended_call c (now (m.readings + 1))) m1.calls,
        )
