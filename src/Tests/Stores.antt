-- ===== src/Tests/Stores.antt =====
-- Tests of src/persistence.
use textbee_gateway.Prelude.{
  text_ne, ◌≡◌, ◌≢◌, refl, arith, Bool, true, false, String, none, some, [], ◌∷◌, ◌===◌, ===_iff,
  if◌then◌else◌,
}
use textbee_gateway.JsMap.{get, set}
use textbee_gateway.Core.Types.{Endpoint, CallSession, dialing, ended, outbound, inbound}
use textbee_gateway.Persistence.Memory.{
  MemoryStore, empty, check_and_mark_seen, get_or_create_conversation, conversation_key, list_calls,
}
use textbee_gateway.Persistence.Memory.Conversations.{
  IsIndexed, new_record, get_or_create_conversation_again,
}
use textbee_gateway.Persistence.Postgres
use textbee_gateway.Persistence.Postgres.{PostgresStore}

abbrev no_keys : MemoryStore (Unit {0})
no_keys = empty

seen_in_turn :
    ((check_and_mark_seen "webhook" "a" no_keys).0 ≡ true)
    × ((check_and_mark_seen "webhook" "b" (check_and_mark_seen "webhook" "a" no_keys).1).0 ≡ true)
unfolding check_and_mark_seen get set
seen_in_turn = (refl, refl)

abbrev no_text : String
no_text = ""

abbrev conv_1 : String
conv_1 = "conv_1"

conv_1_ne : conv_1 ≢ no_text
conv_1_ne = text_ne conv_1 no_text refl

no_keys-IsIndexed : IsIndexed no_keys
unfolding get
no_keys-IsIndexed = record { present = λ key id at. cc; proper = λ key id at. cc }

get_or_create_conversation_again_example :
    let (r, s') = get_or_create_conversation "conv_1" "noon" "desk" "+1415" no_keys in
    IsIndexed s'
    × (r ≢ none)
    × (get_or_create_conversation "conv_2" "later" "desk" "+1415" s' ≡ (r, s'))
get_or_create_conversation_again_example =
    get_or_create_conversation_again "conv_1" "conv_2" "noon" "later" "desk" "+1415" no_keys
      no_keys-IsIndexed conv_1_ne

-- The endpoints "desk" and "desk:sip" share a conversation.
shared :
    (get_or_create_conversation "conv_2" "later" "desk:sip" "bob@example.org"
      (get_or_create_conversation "conv_1" "noon" "desk" "sip:bob@example.org" no_keys).1).0
    ≡ some (new_record "conv_1" "noon" "desk" "sip:bob@example.org")
unfolding get_or_create_conversation conversation_key get set
shared = refl

abbrev same_time : String → String
same_time t = t

abbrev no_rows : PostgresStore
no_rows = record {
  calls = [];
  messages = [];
  endpoint_configs = [];
  idempotency_keys = [];
  conversations = [];
  conversation_turns = [];
  subscribers = [];
}

-- The SQL store does keep the two endpoints apart.
kept_apart :
    (Postgres.get_or_create_conversation same_time "conv_2" "later" "desk:sip" "bob@example.org"
      (Postgres.get_or_create_conversation same_time "conv_1" "noon" "desk" "sip:bob@example.org"
        no_rows).1).0
    ≡ new_record "conv_2" "later" "desk:sip" "bob@example.org"
unfolding Postgres.get_or_create_conversation Postgres.row_to_conversation
kept_apart = refl

abbrev endpoint : String → Endpoint
endpoint address = record { address = address; label = none }

abbrev call : CallSession
call = record {
  id = "call_1";
  provider = "local";
  direction = outbound;
  from = endpoint "me";
  to = endpoint "you";
  state = dialing;
  started_at = "noon";
  ended_at = none;
  media_stream_url = none;
}

-- Of another version of the call the table takes the state and the end, and not the direction.
abbrev later_version : CallSession
later_version = record call { direction = inbound; state = ended; ended_at = some "one" }

found_call : Postgres.get_call same_time "call_1" (Postgres.save_call call no_rows) ≡ some call
unfolding Postgres.get_call Postgres.save_call Postgres.row_to_call get set
found_call = refl

abbrev noon : String
noon = "noon"

abbrev one : String
one = "one"

-- Only "one" comes after "noon".
abbrev after : String → String → Bool
after a b = if a === one then b === noon else false

after_asym : (a b : String) → after a b ≡ true → after b a ≡ false
after_asym a b h = ground (arith, ===_iff b noon, ===_iff b one, text_ne noon one refl)

abbrev two_calls : MemoryStore (Unit {0})
two_calls = record empty {
  calls = ("call_1", call) ∷ ("call_2", record call { id = "call_2"; started_at = "one" }) ∷ [];
}

newest_first :
    list_calls after (some 1) two_calls ≡ record call { id = "call_2"; started_at = "one" } ∷ []
unfolding list_calls
newest_first = refl
