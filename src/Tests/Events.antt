-- ===== src/Tests/Events.antt =====
-- Tests of the event path of src/core/session-manager.ts.
use mathlib.Core.List.{Permᴰ}
use textbee_gateway.Prelude.{inl, ℕ, zero, suc, ◌≡◌, refl, String, none, some, [], ◌∷◌, map}
use textbee_gateway.JsMap.{get}
use textbee_gateway.Core.Types.{
  sms, Endpoint, CallSession, dialing, ringing, in_progress, ended, outbound, MessageRecord, queued,
  sent, delivered, message_status,
}
use textbee_gateway.Core.Status.{settle}
use textbee_gateway.Core.Session.{Manager}
use textbee_gateway.Core.Session.Events.{merged, handle_adapter_event, handle_all, resume}
use textbee_gateway.Core.Session.Events.Statuses.{Has, webhooks, handle_all-settle, handle_all-perm}
use textbee_gateway.Core.Session.Events.Races.{resume-handle, overlapping_webhooks}
use textbee_gateway.Core.Session.Events.Calls.{
  moved, finished, change_event, Tracks, handle_all-last_state,
}
use textbee_gateway.Persistence.Types.{PersistenceStore, status_of}
use textbee_gateway.Persistence.Memory.{MemoryStore, empty, get_call, get_message}
use textbee_gateway.Persistence.Memory.Laws.{memory_store}
use textbee_gateway.Persistence.Postgres.{PostgresStore}
use textbee_gateway.Persistence.Postgres
use textbee_gateway.Persistence.Postgres.Laws.{postgres_store}

abbrev endpoint : String → Endpoint
endpoint address = record { address = address; label = none }

abbrev call : CallSession
call = record {
  id = "call_1";
  provider = "local";
  direction = outbound;
  from = endpoint "me";
  to = endpoint "you";
  state = dialing;
  started_at = "noon";
  ended_at = none;
  media_stream_url = none;
}

abbrev message : MessageRecord
message = record {
  id = "msg_1";
  provider = "local";
  kind = sms;
  direction = outbound;
  from = endpoint "me";
  to = endpoint "you";
  body = some "hello";
  media_urls = none;
  sent_at = "noon";
  status = queued;
}

-- The clock says "noon" once and then "later".
abbrev now : ℕ → String
now zero = "noon"
now (suc n) = "later"

abbrev Memory : Type 0
Memory = MemoryStore (Unit {0})

abbrev store : PersistenceStore Memory
store = memory_store (Unit {0})

abbrev on_bus : Memory
on_bus = record empty {
  calls = ("call_1", call) ∷ [];
  messages = ("msg_1", message) ∷ [];
  subscribers = ("events", 7 ∷ []) ∷ [];
}

-- A core that holds one call and one message, as its store does, on the store's bus.
abbrev manager : Manager Memory (Unit {0})
manager = record {
  adapters = [];
  routing = [];
  calls = ("call_1", call) ∷ [];
  messages = ("msg_1", message) ∷ [];
  listeners = 3 ∷ [];
  store = on_bus;
  handler = 7;
  pending = [];
  notices = [];
  readings = 0;
}

manager-Has : Has store now manager "msg_1" message
unfolding get get_message
manager-Has = record { cached = refl; durable = refl }

manager-Tracks : Tracks store now manager call dialing
unfolding get get_call
manager-Tracks = record {
  call = call;
  cached = refl;
  same = record {
    id = refl;
    provider = refl;
    direction = refl;
    from = refl;
    to = refl;
    started_at = refl;
    media_stream_url = refl;
  };
  local = refl;
  end = inl refl;
  durable = refl;
}

handle_all-settle_example :
    Has store now
      (handle_all store now "local" (webhooks "msg_1" (delivered ∷ sent ∷ [])) manager)
      "msg_1"
      (record message { status = settle queued (delivered ∷ sent ∷ []) })
handle_all-settle_example =
    handle_all-settle store now "local" (delivered ∷ sent ∷ []) manager message manager-Has

handle_all-perm_example :
    (get "msg_1"
        (handle_all store now "local" (webhooks "msg_1" (delivered ∷ sent ∷ [])) manager).messages
      ≡ get "msg_1"
          (handle_all store now "local"
            (webhooks "msg_1" (sent ∷ delivered ∷ []))
            manager).messages)
    × (status_of (
          store.get_message "msg_1"
            (handle_all store now "local" (webhooks "msg_1" (delivered ∷ sent ∷ [])) manager).store)
        ≡ status_of (
            store.get_message "msg_1"
              (handle_all store now "local"
                (webhooks "msg_1" (sent ∷ delivered ∷ []))
                manager).store))
handle_all-perm_example =
    handle_all-perm store now "local" (delivered ∷ sent ∷ []) (sent ∷ delivered ∷ []) manager
      message manager-Has ∣ Permᴰ.swap refl refl ∣₁

handle_all-last_state_example :
    Tracks store now
      (handle_all store now "local"
        (map (change_event "call_1") (moved ringing ∷ moved in_progress ∷ finished none ∷ []))
        manager)
      call
      ended
handle_all-last_state_example =
    handle_all-last_state store now "local" (moved ringing ∷ moved in_progress ∷ finished none ∷ [])
      manager call dialing manager-Tracks

abbrev same_time : String → String
same_time t = t

abbrev sql_store : PersistenceStore PostgresStore
sql_store = postgres_store same_time

-- A core that was just started, on a table that has the message.
abbrev restarted : Manager PostgresStore (Unit {0})
restarted = record {
  adapters = [];
  routing = [];
  calls = [];
  messages = [];
  listeners = [];
  store = record {
    calls = [];
    messages = ("msg_1", message) ∷ [];
    endpoint_configs = [];
    idempotency_keys = [];
    conversations = [];
    conversation_turns = [];
    subscribers = ("events", 7 ∷ []) ∷ [];
  };
  handler = 7;
  pending = [];
  notices = [];
  readings = 0;
}

not_cached : get "msg_1" restarted.messages ≡ none
unfolding get
not_cached = refl

in_table : sql_store.get_message "msg_1" restarted.store ≡ some message
unfolding get Postgres.get_message
in_table = refl

resume-handle_example :
    Has sql_store now
      (resume sql_store now
        (handle_adapter_event sql_store now "local" (message_status "msg_1" delivered) restarted))
      "msg_1"
      (merged message delivered)
resume-handle_example =
    resume-handle sql_store now "local" delivered restarted message not_cached in_table refl

-- A delivery receipt is lost to an earlier notice.
overlapping_webhooks_example :
    Has sql_store now
      (resume sql_store now (
        resume sql_store now (
          handle_adapter_event sql_store now "local" (message_status "msg_1" sent) (
            handle_adapter_event sql_store now "local"
              (message_status "msg_1" delivered)
              restarted))))
      "msg_1"
      (merged message sent)
overlapping_webhooks_example =
    overlapping_webhooks sql_store now "local" delivered sent restarted message not_cached in_table
      refl
