-- ===== src/Adapters/TextBee/Sending.antt =====
-- What a message that was sent looks like, and what cannot be sent.
use textbee_gateway.Prelude.{◌≡◌, arith, true, String, some, ok, err, or_default}
use textbee_gateway.Core.Types.{Endpoint, MessageRecord, queued, mms, sms, outbound}
use textbee_gateway.Core.Session.{SendMessageOptions}
use textbee_gateway.Core.Session.Operations.{message_kind}
use textbee_gateway.Adapters.TextBee.{TextBeeAdapter, Response, no_mms, send_message}

-- Although the adapter lists `mms` among what it can do, a message that the core routes as MMS is
-- refused, whatever the service would answer.
pub send_message-mms :
    (new_id now body : String) (a : TextBeeAdapter) (to : Endpoint) (opts : SendMessageOptions)
    (res : Response)
    → message_kind opts.media_urls ≡ mms
    → send_message new_id now a to body opts res ≡ err no_mms
unfolding send_message message_kind
send_message-mms new_id now body a to opts res h = ground arith

-- A message that is sent is an outbound SMS in the state `queued`, under the identifier by which the
-- service reports on it where it gave one; and the service had accepted it.
pub send_message-ok :
    (new_id now body : String) (a : TextBeeAdapter) (to : Endpoint) (opts : SendMessageOptions)
    (res : Response) (r : MessageRecord)
    → send_message new_id now a to body opts res ≡ ok r
    → (res.ok ≡ true)
      × (r.id ≡ or_default res.sms_batch_id new_id)
      × (r.status ≡ queued)
      × (r.kind ≡ sms)
      × (r.direction ≡ outbound)
      × (r.to ≡ to)
      × (r.body ≡ some body)
unfolding send_message message_kind
send_message-ok new_id now body a to opts res r h = ground arith
