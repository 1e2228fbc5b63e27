-- ===== src/Tests/TextBee.antt =====
-- Tests of src/adapters/textbee-adapter.ts.
use textbee_gateway.Prelude.{text_ne, ◌≡◌, ◌≢◌, refl, true, String, none, some, [], ◌∷◌, ok, inr}
use textbee_gateway.Core.Types.{Endpoint, MessageRecord, queued, sms, outbound, delivered}
use textbee_gateway.Core.Session.{SendMessageOptions}
use textbee_gateway.Core.Session.Operations.{message_kind}
use textbee_gateway.Adapters.TextBee.{
  TextBeeAdapter, TextBeeConfig, Payload, Response, send_message, duplicate_delivery, mark_fallback,
  handle_inbound_webhook, map_delivery_status, contains, check_and_mark_seen,
}
use textbee_gateway.Adapters.TextBee.Webhooks.{Delivery, receive, receive_all, same_sms_id_once}
use textbee_gateway.Persistence.Memory.{MemoryStore, empty}

abbrev config : TextBeeConfig
config = record {
  api_key = "key";
  device_id = "phone";
  base_url = "https://api.textbee.dev/api/v1";
  webhook_signing_secret = some "secret";
}

abbrev adapter : TextBeeAdapter
adapter = record { id = "textbee"; config = config; seen_sms_ids_fallback = [] }

abbrev delivery : Payload
delivery = record {
  sms_id = some "sms_1";
  sender = some "+14155550100";
  message = some "hello";
  received_at = none;
  device_id = none;
  webhook_event = some "MESSAGE_RECEIVED";
  media_urls = none;
  sms_batch_id = none;
  status = none;
  idempotency_key = none;
}

abbrev without_sender : Payload
without_sender = record delivery { sender = none; webhook_event = none }

abbrev sms_1 : String
sms_1 = "sms_1"

abbrev no_text : String
no_text = ""

sms_1_ne : sms_1 ≢ no_text
sms_1_ne = text_ne sms_1 no_text refl

status_read : map_delivery_status "MESSAGE_DELIVERED" none ≡ some delivered
unfolding map_delivery_status
status_read = refl

-- With the identifiers that the adapter keeps by itself.
first_is_ingested :
    (handle_inbound_webhook {S = Unit {0}} none "msg_1" "noon" delivery (adapter, tt)).0.reason
    ≡ none
unfolding handle_inbound_webhook check_and_mark_seen mark_fallback contains
first_is_ingested = refl

abbrev receipt : Payload
receipt = record delivery { webhook_event = some "MESSAGE_DELIVERED" }

abbrev delivered_as : String → Payload → Delivery
delivered_as new_id p = record { new_id = new_id; now = "noon"; payload = p }

abbrev no_keys : MemoryStore (Unit {0})
no_keys = empty

same_sms_id_once_example :
    (receive (delivered_as "msg_3" delivery) (
      receive_all
        (delivered_as "msg_2" receipt ∷ [])
        (receive (delivered_as "msg_1" delivery) (adapter, no_keys)).1)).0
    ≡ record { reason = some duplicate_delivery; emitted = none }
same_sms_id_once_example =
    same_sms_id_once "sms_1" (delivered_as "msg_1" delivery) (delivered_as "msg_3" delivery)
      (delivered_as "msg_2" receipt ∷ []) adapter no_keys (inr refl) (inr refl) refl refl sms_1_ne

-- A delivery that lacks its sender takes its identifier with it.
swallowed :
    (handle_inbound_webhook {S = Unit {0}} none "msg_2" "one" delivery
      (handle_inbound_webhook {S = Unit {0}} none "msg_1" "noon" without_sender
        (adapter, tt)).1).0.reason
    ≡ some duplicate_delivery
unfolding handle_inbound_webhook check_and_mark_seen mark_fallback contains
swallowed = refl

abbrev callee : Endpoint
callee = record { address = "+14155550100"; label = none }

abbrev plain : SendMessageOptions
plain = record { from = none; media_urls = none }

abbrev accepted : Response
accepted = record { ok = true; sms_batch_id = some "batch_1" }

abbrev sent_message : MessageRecord
sent_message = record {
  id = "batch_1";
  provider = "textbee";
  kind = sms;
  direction = outbound;
  from = record { address = "textbee:phone"; label = none };
  to = callee;
  body = some "hello";
  media_urls = none;
  sent_at = "noon";
  status = queued;
}

sends : send_message "msg_1" "noon" adapter callee "hello" plain accepted ≡ ok sent_message
unfolding send_message message_kind
sends = refl
