-- ===== src/Core/Session/Events.antt =====
-- How the core takes in an event: `handleAdapterEvent`, `applyEventToLocalState`, `persistEvent`
-- and the bus of src/core/session-manager.ts.
pub mod Cached
pub mod Calls
pub mod Ends
pub mod Statuses
pub mod Races
use textbee_gateway.Prelude.{
  ℕ, suc, ◌+◌, Bool, true, false, String, Option, none, some, List, [], ◌∷◌, ◌++◌, map, ◌==◌,
  if◌then◌else◌, foldl,
}
use textbee_gateway.JsMap.{JsMap, get, set}
use textbee_gateway.Core.Types.{
  ProviderId, CallSession, CallState, ended, MessageRecord, MessageStatus, AdapterEvent,
  call_incoming, call_state_changed, call_dtmf, call_ended, message_incoming, message_status,
}
use textbee_gateway.Core.Status.{merge_message_status}
use textbee_gateway.Core.Session.{Manager, Pending, Notice}
use textbee_gateway.Persistence.Types.{PersistenceStore}

abbrev pub events_channel : String
events_channel = "events"

abbrev pub merged : MessageRecord → MessageStatus → MessageRecord
merged m status = record m { status = merge_message_status m.status status }

abbrev pub notice_of : ProviderId → AdapterEvent → ℕ → Notice
notice_of provider event l = record { listener = l; provider = provider; event = event }

module _ {S W : Type 0} (store : PersistenceStore S) (now : ℕ → String) where
  end_call : Option CallSession → String → Manager S W → Manager S W
  end_call none call_id m = m
  end_call (some c) call_id m = record m {
    calls = set call_id (record c { state = ended; ended_at = some (now m.readings) }) m.calls;
    readings = m.readings + 1;
  }

  change_call : Option CallSession → String → CallState → Manager S W → Manager S W
  change_call none call_id state m = m
  change_call (some c) call_id state m = record m {
    calls = set call_id (record c { state = state }) m.calls;
  }

  change_message : Option MessageRecord → String → MessageStatus → Manager S W → Manager S W
  change_message none message_id status m = m
  change_message (some r) message_id status m = record m {
    messages = set message_id (merged r status) m.messages;
  }

  unfoldable pub apply_event_to_local_state : AdapterEvent → Manager S W → Manager S W
  unfolding end_call change_call change_message
  apply_event_to_local_state (call_incoming c) m = record m { calls = set c.id c m.calls }
  apply_event_to_local_state (call_state_changed call_id state) m =
      change_call (get call_id m.calls) call_id state m
  apply_event_to_local_state (call_ended call_id reason) m =
      end_call (get call_id m.calls) call_id m
  apply_event_to_local_state (message_incoming r) m = record m { messages = set r.id r m.messages }
  apply_event_to_local_state (message_status message_id status) m =
      change_message (get message_id m.messages) message_id status m
  apply_event_to_local_state (call_dtmf call_id digit) m = m

  save_if : Option CallSession → Manager S W → Manager S W
  save_if none m = m
  save_if (some c) m = record m { store = store.save_call c m.store }

  -- The end of `persistEvent` for a status, on the message that was found.
  unfoldable pub finish_status : MessageRecord → MessageStatus → Manager S W → Manager S W
  finish_status r status m = record m {
    messages = set r.id (merged r status) m.messages;
    store = store.save_message (merged r status) m.store;
  }

  -- A message that is not in the cache is asked of the store, and the rest waits.
  wait_for : Option MessageRecord → MessageStatus → Manager S W → Manager S W
  wait_for none status m = m
  wait_for (some r) status m = record m {
    pending = m.pending ++ record { loaded = r; status = status } ∷ [];
  }

  persist_status : Option MessageRecord → String → MessageStatus → Manager S W → Manager S W
  unfolding finish_status wait_for
  persist_status (some r) message_id status m = finish_status r status m
  persist_status none message_id status m = wait_for (store.get_message message_id m.store) status m

  -- `persistEvent` up to its first `await`, which ends its synchronous part.
  unfoldable pub persist_event : AdapterEvent → Manager S W → Manager S W
  unfolding save_if persist_status
  persist_event (call_incoming c) m = record m { store = store.save_call c m.store }
  persist_event (call_state_changed call_id state) m = save_if (get call_id m.calls) m
  persist_event (call_ended call_id reason) m = save_if (get call_id m.calls) m
  persist_event (message_incoming r) m = record m { store = store.save_message r m.store }
  persist_event (message_status message_id status) m =
      persist_status (get message_id m.messages) message_id status m
  persist_event (call_dtmf call_id digit) m = m

  -- The subscription that `fromConfig` makes.
  unfoldable pub on_bus_event : ProviderId → AdapterEvent → Manager S W → Manager S W
  on_bus_event provider event m =
      let m' = apply_event_to_local_state event m in
      record m' { notices = m'.notices ++ map (notice_of provider event) m'.listeners }

  -- A bus calls its handlers in turn; those of other processes change nothing here.
  unfoldable pub deliver : ProviderId → AdapterEvent → List ℕ → Manager S W → Manager S W
  deliver provider event [] m = m
  deliver provider event (h ∷ hs) m =
      deliver provider event hs (if h == m.handler then on_bus_event provider event m else m)

  unfoldable pub publish_event : ProviderId → AdapterEvent → Manager S W → Manager S W
  publish_event provider event m = deliver provider event (store.handlers events_channel m.store) m

  unfoldable pub handle_adapter_event : ProviderId → AdapterEvent → Manager S W → Manager S W
  handle_adapter_event provider event m =
      publish_event provider event (persist_event event (apply_event_to_local_state event m))

  -- `ingestExternalEvent`
  abbrev pub ingest_external_event : ProviderId → AdapterEvent → Manager S W → Manager S W
  ingest_external_event provider event m = handle_adapter_event provider event m

  abbrev pub handle_all : ProviderId → List AdapterEvent → Manager S W → Manager S W
  handle_all provider events m = foldl (λ m' event. handle_adapter_event provider event m') m events

  resume_with : List Pending → Manager S W → Manager S W
  unfolding finish_status
  resume_with [] m = m
  resume_with (p ∷ ps) m = finish_status p.loaded p.status (record m { pending = ps })

  -- The oldest part that waits goes on.
  unfoldable pub resume : Manager S W → Manager S W
  unfolding resume_with
  resume m = resume_with m.pending m
