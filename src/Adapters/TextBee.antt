-- ===== src/Adapters/TextBee.antt =====
-- src/adapters/textbee-adapter.ts. The HTTP response, the HMAC, new identifiers and the time are
-- arguments. `S` is the state of the idempotency check that the core attaches.
pub mod Seen
pub mod Webhooks
pub mod Sending
use Prim.Native.String
use textbee_gateway.Prelude.{
  truthy, ◌+++◌, ℕ, ◌+◌, Bool, true, false, not, ◌&&◌, ◌||◌, String, Option, none, some, List, [],
  ◌∷◌, ◌++◌, Result, ok, err, ltb, length, or_default, ◌===◌, if◌then◌else◌,
}
use textbee_gateway.Core.Types.{
  ProviderId, Endpoint, ChannelKind, sms, mms, inbound, outbound, MessageRecord, MessageStatus,
  queued, sent, delivered, failed, received, AdapterEvent, message_incoming, message_status,
}
use textbee_gateway.Core.Session.{SendMessageOptions}
use textbee_gateway.Core.Session.Routing.{or_else}
use textbee_gateway.Core.Session.Operations.{message_kind}

pub record TextBeeConfig : Type 0 where
  pub api_key : String
  pub device_id : String
  pub base_url : String
  pub webhook_signing_secret : Option String

-- The identifiers of the fallback stand in the order in which they came.
pub record TextBeeAdapter : Type 0 where
  pub id : ProviderId
  pub config : TextBeeConfig
  pub seen_sms_ids_fallback : List String

abbrev pub seen_ids_cap : ℕ
seen_ids_cap = 2000

-- What the configuration file may give.
pub record TextBeeOptions : Type 0 where
  pub api_key : Option String
  pub device_id : Option String
  pub base_url : Option String
  pub webhook_signing_secret : Option String

configured : Option String → Option String → TextBeeOptions → TextBeeAdapter → Option TextBeeAdapter
configured none device_id opts a = none
configured (some api_key) none opts a = none
configured (some api_key) (some device_id) opts a =
    if (api_key === "") || (device_id === "")
    then none
    else some (record a {
      config = record {
        api_key = api_key;
        device_id = device_id;
        base_url = or_default opts.base_url "https://api.textbee.dev/api/v1";
        webhook_signing_secret = opts.webhook_signing_secret;
      };
    })

-- `none`: the key or the device is missing, and it throws.
unfoldable pub init : TextBeeOptions → TextBeeAdapter → Option TextBeeAdapter
unfolding configured
init opts a = configured opts.api_key opts.device_id opts a

unfoldable pub contains : String → List String → Bool
contains s [] = false
contains s (t ∷ ts) = t === s || contains s ts

-- The oldest identifier goes where there are more than the cap.
evict : List String → List String
evict [] = []
evict (oldest ∷ rest) = if ltb seen_ids_cap (length (oldest ∷ rest)) then rest else oldest ∷ rest

unfoldable pub mark_fallback : String → List String → Bool × List String
unfolding contains evict
mark_fallback sms_id seen =
    if contains sms_id seen then (false, seen) else (true, evict (seen ++ sms_id ∷ []))

pub record Payload : Type 0 where
  pub sms_id : Option String
  pub sender : Option String
  pub message : Option String
  pub received_at : Option String
  pub device_id : Option String
  pub webhook_event : Option String
  pub media_urls : Option (List String)
  pub sms_batch_id : Option String
  pub status : Option String
  pub idempotency_key : Option String

-- Why a delivery was not ingested.
pub data Reason : Type 0 where
  ignored_event duplicate_status duplicate_delivery requires_sender_and_message : Reason

pub record Ingestion : Type 0 where
  pub reason : Option Reason
  pub emitted : Option AdapterEvent

abbrev ingested : AdapterEvent → Ingestion
ingested event = record { reason = none; emitted = some event }

abbrev refused : Reason → Ingestion
refused reason = record { reason = some reason; emitted = none }

abbrev is_status : Option String → String → Bool
is_status none s = false
is_status (some t) s = t === s

unfoldable pub map_delivery_status : String → Option String → Option MessageStatus
map_delivery_status event provider_status =
    if event === "MESSAGE_DELIVERED" || is_status provider_status "delivered"
    then some delivered
    else if event === "MESSAGE_FAILED" || is_status provider_status "failed"
    then some failed
    else if event === "MESSAGE_SENT"
        || (is_status provider_status "sent" || is_status provider_status "dispatched")
    then some sent
    else none

-- `verifyWebhookSignature`: `hmac secret body` is the digest in hexadecimal. Two texts of one
-- length in bytes are compared byte by byte, which is equality.
unfoldable pub verify_webhook_signature :
    (String → String → String) → TextBeeConfig → String → Option String → Bool
verify_webhook_signature hmac config raw_body signature = elim config.webhook_signing_secret [
  | none ↦ true
  | some secret ↦
      if secret === ""
      then true
      else elim signature [ none ↦ false | some s ↦ not (s === "") && hmac secret raw_body === s ]
]

abbrev incoming_message :
    String → String → TextBeeAdapter → Payload → String → String → MessageRecord
incoming_message new_id now a p sender message = record {
  id = new_id;
  provider = a.id;
  kind = message_kind p.media_urls;
  direction = inbound;
  from = record { address = sender; label = none };
  to = record { address = "textbee:" +++ or_default p.device_id a.config.device_id; label = none };
  body = some message;
  media_urls = p.media_urls;
  sent_at = or_default p.received_at now;
  status = received;
}

-- The end of `handleInboundWebhook`: a sender and a message are required.
required : String → String → Payload → Option String → Option String → TextBeeAdapter → Ingestion
required new_id now p none message a = refused requires_sender_and_message
required new_id now p (some sender) none a = refused requires_sender_and_message
required new_id now p (some sender) (some message) a =
    if sender === ""
    then refused requires_sender_and_message
    else ingested (message_incoming (incoming_message new_id now a p sender message))

module _ {S : Type 0} (check : Option (String → S → Bool × S)) where
  -- The adapter and the state of the attached check, which change together.
  abbrev pub State : Type 0
  State = TextBeeAdapter × S

  with_fallback : Bool × List String → State → Bool × State
  with_fallback (new, seen) (a, s) = (new, (record a { seen_sms_ids_fallback = seen }, s))

  with_check : Bool × S → State → Bool × State
  with_check (new, s') (a, s) = (new, (a, s'))

  unfoldable pub check_and_mark_seen : String → State → Bool × State
  unfolding with_fallback with_check
  check_and_mark_seen sms_id (a, s) = elim check [
    | some attached ↦ with_check (attached ("textbee:" +++ a.id +++ ":" +++ sms_id) s) (a, s)
    | none ↦ with_fallback (mark_fallback sms_id a.seen_sms_ids_fallback) (a, s)
  ]

  -- `if (!firstTime) return …`
  first_time : Reason → Ingestion → Bool × State → Ingestion × State
  first_time reason then' (true, st) = (then', st)
  first_time reason then' (false, st) = (refused reason, st)

  status_delivery :
      Payload → String → Option MessageStatus → Option String → State → Ingestion × State
  unfolding first_time
  status_delivery p event none id st = (refused ignored_event, st)
  status_delivery p event (some status) none st = (refused ignored_event, st)
  status_delivery p event (some status) (some message_id) st =
      if message_id === ""
      then (refused ignored_event, st)
      else first_time duplicate_status (ingested (message_status message_id status)) (
          check_and_mark_seen
            (or_default p.idempotency_key (event +++ ":" +++ or_default p.sms_id message_id)) st)

  -- A message delivery, once its identifier has been checked.
  message_delivery : Option String → String → String → Payload → State → Ingestion × State
  unfolding first_time required
  message_delivery none new_id now p (a, s) = (required new_id now p p.sender p.message a, (a, s))
  message_delivery (some sms_id) new_id now p (a, s) =
      if sms_id === ""
      then (required new_id now p p.sender p.message a, (a, s))
      else first_time duplicate_delivery (required new_id now p p.sender p.message a)
          (check_and_mark_seen sms_id (a, s))

  unfoldable pub handle_inbound_webhook : String → String → Payload → State → Ingestion × State
  unfolding status_delivery message_delivery
  handle_inbound_webhook new_id now p st = elim p.webhook_event [
    | none ↦ message_delivery p.sms_id new_id now p st
    | some event ↦
        if event === "" || event === "MESSAGE_RECEIVED"
        then message_delivery p.sms_id new_id now p st
        else status_delivery p event (map_delivery_status event p.status)
            (or_else p.sms_batch_id p.sms_id) st
  ]

-- What the HTTP request gave: whether the status was a success, and `smsBatchId` of the body.
pub record Response : Type 0 where
  pub ok : Bool
  pub sms_batch_id : Option String

pub data SendError : Type 0 where
  no_mms : SendError
  send_failed : SendError

abbrev sent_record :
    String
    → String
    → TextBeeAdapter
    → Endpoint
    → String
    → SendMessageOptions
    → Response
    → MessageRecord
sent_record new_id now a to body opts res = record {
  id = or_default res.sms_batch_id new_id;
  provider = a.id;
  kind = message_kind opts.media_urls;
  direction = outbound;
  from =
      or_default opts.from (record { address = "textbee:" +++ a.config.device_id; label = none });
  to = to;
  body = some body;
  media_urls = opts.media_urls;
  sent_at = now;
  status = if res.ok then queued else failed;
}

has_media : Option (List String) → Bool
has_media none = false
has_media (some []) = false
has_media (some (u ∷ us)) = true

unfoldable pub send_message :
    String
    → String
    → TextBeeAdapter
    → Endpoint
    → String
    → SendMessageOptions
    → Response
    → Result SendError MessageRecord
unfolding has_media
send_message new_id now a to body opts res =
    if has_media opts.media_urls
    then err no_mms
    else if res.ok
    then ok (sent_record new_id now a to body opts res)
    else err send_failed
