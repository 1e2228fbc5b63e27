-- ===== src/Tests/Core.antt =====
-- Tests of the operations and of the routing of src/core/session-manager.ts.
use textbee_gateway.Prelude.{ℕ, ◌≡◌, refl, String, none, some, List, [], ◌∷◌, ok}
use textbee_gateway.JsMap.{get, set}
use textbee_gateway.Core.Types.{
  voice, sms, Endpoint, CallSession, dialing, outbound, RoutingRule, MessageRecord, queued,
  delivered, message_status,
}
use textbee_gateway.Core.Session.{Manager, Adapter}
use textbee_gateway.Core.Session.Routing.{choose_rule}
use textbee_gateway.Core.Session.Routing.Choice.{IsChoice, choose_rule-IsChoice}
use textbee_gateway.Core.Session.Operations.{
  DialRequest, SendRequest, dial, send_message, list_calls, list_messages, must_get, provider_for,
}
use textbee_gateway.Core.Session.Events.{
  handle_adapter_event, publish_event, deliver, persist_event, apply_event_to_local_state,
}
use textbee_gateway.Core.Session.Operations.Tracking.{
  IsTracked, IsStored, dial-IsTracked, send_message-IsStored,
}
use textbee_gateway.Persistence.Memory.{MemoryStore, empty, handlers, get_message}
use textbee_gateway.Persistence.Memory.Laws.{memory_store}
use textbee_gateway.Persistence.Types.{PersistenceStore}

abbrev wide : RoutingRule
wide = record { channel = voice; match = some "+1"; provider = "trunk" }

abbrev narrow : RoutingRule
narrow = record { channel = voice; match = some "+1415"; provider = "local" }

abbrev texts : RoutingRule
texts = record { channel = sms; match = some "*"; provider = "phone" }

abbrev rules : List RoutingRule
rules = wide ∷ narrow ∷ texts ∷ []

abbrev number : String
number = "+14155550100"

chosen : choose_rule rules sms number ≡ some texts
unfolding choose_rule
chosen = refl

choose_rule-IsChoice_example : IsChoice rules sms number texts
choose_rule-IsChoice_example = choose_rule-IsChoice rules sms number texts chosen

abbrev endpoint : String → Endpoint
endpoint address = record { address = address; label = none }

abbrev call : CallSession
call = record {
  id = "call_1";
  provider = "local";
  direction = outbound;
  from = endpoint "me";
  to = endpoint number;
  state = dialing;
  started_at = "noon";
  ended_at = none;
  media_stream_url = none;
}

abbrev message : MessageRecord
message = record {
  id = "msg_1";
  provider = "local";
  kind = sms;
  direction = outbound;
  from = endpoint "me";
  to = endpoint number;
  body = some "hello";
  media_urls = none;
  sent_at = "noon";
  status = queued;
}

-- The world counts what was asked of the provider. A message's delivery receipt comes before the
-- provider has answered.
abbrev adapter : Adapter ℕ
adapter = record {
  id = "local";
  capabilities = voice ∷ sms ∷ [];
  dial = some (λ to options w. record { result = ok call; emitted = []; world = 1 });
  answer = none;
  hangup = none;
  hold = none;
  mute = none;
  transfer = none;
  send_dtmf = none;
  record_call = none;
  send_message = some (λ to body options w. record {
    result = ok message;
    emitted = message_status "msg_1" delivered ∷ [];
    world = 1;
  });
}

abbrev now : ℕ → String
now n = "noon"

abbrev store : PersistenceStore (MemoryStore (Unit {0}))
store = memory_store (Unit {0})

abbrev manager : Manager (MemoryStore (Unit {0})) ℕ
manager = record {
  adapters = ("local", adapter) ∷ [];
  routing = rules;
  calls = [];
  messages = [];
  listeners = [];
  store = empty;
  handler = 0;
  pending = [];
  notices = [];
  readings = 0;
}

abbrev dial_local : DialRequest
dial_local = record {
  provider_id = some "local";
  options = record { from = none; attach_media_stream_url = none };
}

abbrev send_local : SendRequest
send_local = record {
  provider_id = some "local";
  options = record { from = none; media_urls = none };
}

dials : list_calls (dial store now (endpoint number) dial_local manager 0).1 ≡ call ∷ []
unfolding dial provider_for must_get get set
dials = refl

sends :
    list_messages (send_message store now (endpoint number) "hello" send_local manager 0).1
    ≡ message ∷ []
unfolding send_message provider_for must_get get set handle_adapter_event publish_event deliver
    handlers persist_event apply_event_to_local_state get_message
sends = refl

dial-IsTracked_example : IsTracked store now (dial store now (endpoint number) dial_local manager 0)
dial-IsTracked_example = dial-IsTracked store now (endpoint number) dial_local manager 0

send_message-IsStored_example :
    IsStored store now (send_message store now (endpoint number) "hello" send_local manager 0)
send_message-IsStored_example =
    send_message-IsStored store now (endpoint number) "hello" send_local manager 0
