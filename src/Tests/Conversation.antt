-- ===== src/Tests/Conversation.antt =====
-- Tests of src/core/conversation-service.ts and of src/adapters/whatsapp-adapter.ts.
use textbee_gateway.Prelude.{
  foldl, ◌++◌, ◌≡◌, refl, arith, Bool, false, String, Option, none, some, List, [], ◌∷◌, Result, ok,
  map, ◌===◌, ◌+++◌,
}
use textbee_gateway.JsMap.{get, set}
use textbee_gateway.Core.Types.{CallSession, Endpoint, inbound, in_progress, call_incoming}
use textbee_gateway.Persistence.Types.{
  ConversationRole, user, assistant, ConversationRecord, ConversationTurnRecord,
  NewConversationTurn,
}
use textbee_gateway.Core.Conversation.{
  ConversationStore, ConversationService, record_transcript_turn, record_call_turn, role_of,
}
use textbee_gateway.Core.Conversation.Recording.{
  auto_record, format_conversation_as_context, direction_text,
}
use textbee_gateway.Core.Conversation.Transcripts.{
  call_started, spoken_turn, appended, record_words, transcript_of_incoming_call,
}
use textbee_gateway.Core.Phone.{Text}
use textbee_gateway.Adapters.WhatsApp.{
  WhatsAppAdapter, WhatsAppConfig, init, shutdown, on_connection_close, jid_to_address,
  address_to_jid, whatsapp_host,
}
use textbee_gateway.Adapters.WhatsApp.Addresses.{jid_to_address-address_to_jid}

abbrev record_of : String → String → ConversationRecord
record_of endpoint_id counterpart = record {
  id = endpoint_id +++ counterpart;
  endpoint_id = endpoint_id;
  counterpart = counterpart;
  created_at = "noon";
  updated_at = "noon";
}

abbrev turn_of : String → NewConversationTurn → ConversationTurnRecord
turn_of id turn = record {
  id = "turn_1";
  conversation_id = id;
  channel = turn.channel;
  role = turn.role;
  content = turn.content;
  call_id = turn.call_id;
  message_id = turn.message_id;
  provider = turn.provider;
  created_at = "noon";
}

-- The store is the list of its turns, the latest first.
abbrev store : ConversationStore (List ConversationTurnRecord)
store = record {
  get_or_create_conversation = λ endpoint_id counterpart s. (record_of endpoint_id counterpart, s);
  append_conversation_turn = λ id turn s. (turn_of id turn, turn_of id turn ∷ s);
  list_conversation_turns = λ id limit s. s;
}

abbrev service : ConversationService (List ConversationTurnRecord)
service = record { call_conversation_context = []; store = [] }

abbrev desk : String → Option String
desk provider = some "desk"

abbrev same : String → Result String String
same address = ok address

abbrev is_empty : String → Bool
is_empty text = text === ""

abbrev endpoint : String → Endpoint
endpoint address = record { address = address; label = none }

abbrev caller : CallSession
caller = record {
  id = "call_1";
  provider = "pbx";
  direction = inbound;
  from = endpoint "+14155550100";
  to = endpoint "me";
  state = in_progress;
  started_at = "noon";
  ended_at = none;
  media_stream_url = none;
}

abbrev no_call : String → Option CallSession
no_call id = none

abbrev after_ringing : ConversationService (List ConversationTurnRecord)
after_ringing = auto_record store desk same "noon" no_call "pbx" (call_incoming caller) service

contents_of_call :
    map
      (λ (t : ConversationTurnRecord). t.content)
      (record_transcript_turn store desk same is_empty "call_1" user "hello" after_ringing).store
    ≡ "hello" ∷ "Call inbound started" ∷ []
unfolding auto_record record_transcript_turn record_call_turn direction_text get set
contents_of_call = refl

context_of_call :
    format_conversation_as_context
      (record { endpoint_id = "desk"; counterpart = "+1415"; turns = after_ringing.store })
    ≡ "Prior conversation history with this contact:\n[noon] voice (user): Call inbound started"
unfolding auto_record record_call_turn direction_text role_of format_conversation_as_context
context_of_call = refl

abbrev words : List (ConversationRole × String)
words = (user, "hello") ∷ (assistant, "how can I help?") ∷ []

transcript_of_incoming_call_example :
    (record_words store desk same is_empty "call_1" words after_ringing).store
    ≡ foldl
        (appended store desk same "desk" "+14155550100")
        service.store
        (call_started "pbx" caller ∷ map (spoken_turn "call_1") words)
transcript_of_incoming_call_example =
    transcript_of_incoming_call store desk same "noon" no_call "pbx" "desk" "+14155550100" caller
      words is_empty service refl refl refl (refl, (refl, tt))

abbrev e164 : Text
e164 = b'+' ∷ b'1' ∷ b'4' ∷ b'1' ∷ b'5' ∷ b'5' ∷ b'5' ∷ b'5' ∷ b'0' ∷ b'1' ∷ b'0' ∷ b'0' ∷ []

abbrev digits : Text
digits = b'4' ∷ b'4' ∷ b'2' ∷ b'0' ∷ []

jid_to_address-address_to_jid_example :
    (jid_to_address (address_to_jid e164) ≡ e164)
    × (address_to_jid (jid_to_address (digits ++ whatsapp_host)) ≡ digits ++ whatsapp_host)
jid_to_address-address_to_jid_example =
    jid_to_address-address_to_jid e164 digits (ground arith) (ground arith)

abbrev given : WhatsAppConfig
given = record { auth_dir = none; print_qr_on_connect = some false }

abbrev started : WhatsAppAdapter
started = init given (record { id = "whatsapp"; config = given; sock = none; sockets = 0 })

stays_logged_out : (on_connection_close 401 (some 401) started).sockets ≡ 1
unfolding on_connection_close init
stays_logged_out = refl

-- A close without a status code makes a new socket, also after a shutdown.
connects_again : (on_connection_close 401 none (shutdown started).1).sock ≡ some 1
unfolding on_connection_close init shutdown
connects_again = refl
