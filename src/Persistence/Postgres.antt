-- ===== src/Persistence/Postgres.antt =====
-- src/persistence/postgres-store.ts. A table is the map or list of its rows, a row being the record
-- that was inserted, and a statement does to it what SQL says: `ON CONFLICT … DO UPDATE` changes the
-- columns that it names and no other. `iso` is what becomes of a time on its way through a
-- `TIMESTAMPTZ` column and `toISOString`. `newest` sorts
-- rows by a column of times, the newest first, as `ORDER BY … DESC` does. A configuration is its
-- JSON text, and its rows come in the order of their insertion, where SQL promises none. The
-- migration is not modelled.
pub mod Laws
pub mod Conversations
use textbee_gateway.Prelude.{
  ℕ, zero, suc, Bool, true, false, ◌&&◌, String, Option, none, some, List, [], ◌∷◌, ◌++◌, find,
  or_default, map, take, select, ◌===◌, if◌then◌else◌,
}
use mathlib.Core.List.{reverse}
use mathlib.Core.Option
use textbee_gateway.JsMap.{JsMap, get, set, values}
use textbee_gateway.Core.Types.{Endpoint, CallSession, MessageRecord}
use textbee_gateway.Persistence.Types.{
  ConversationRecord, ConversationTurnRecord, NewConversationTurn,
}

pub record PostgresStore : Type 0 where
  pub calls : JsMap CallSession
  pub messages : JsMap MessageRecord
  pub endpoint_configs : JsMap String
  pub idempotency_keys : List (String × String)
  pub conversations : List ConversationRecord
  pub conversation_turns : List ConversationTurnRecord
  pub subscribers : JsMap (List ℕ)

-- `ON CONFLICT (id) DO UPDATE SET state, ended_at, media_stream_url`
upsert_call : Option CallSession → CallSession → CallSession
upsert_call none c = c
upsert_call (some old) c = record old {
  state = c.state;
  ended_at = c.ended_at;
  media_stream_url = c.media_stream_url;
}

-- `ON CONFLICT (id) DO UPDATE SET status`
upsert_message : Option MessageRecord → MessageRecord → MessageRecord
upsert_message none r = r
upsert_message (some old) r = record old { status = r.status }

-- `row.from_label ? { address, label } : { address }`: an empty label reads as none.
row_to_label : Option String → Option String
row_to_label none = none
row_to_label (some l) = if l === "" then none else some l

abbrev row_to_endpoint : Endpoint → Endpoint
row_to_endpoint e = record e { label = row_to_label e.label }

unfoldable pub save_call : CallSession → PostgresStore → PostgresStore
unfolding upsert_call
save_call c s = record s { calls = set c.id (upsert_call (get c.id s.calls) c) s.calls }

unfoldable pub save_message : MessageRecord → PostgresStore → PostgresStore
unfolding upsert_message
save_message r s = record s {
  messages = set r.id (upsert_message (get r.id s.messages) r) s.messages;
}

unfoldable pub handlers : String → PostgresStore → List ℕ
handlers channel s = or_default (get channel s.subscribers) []

unfoldable pub subscribe_events : String → ℕ → PostgresStore → PostgresStore
subscribe_events channel handler s = record s {
  subscribers =
      set channel (or_default (get channel s.subscribers) [] ++ handler ∷ []) s.subscribers;
}

abbrev same_key : String → String → String × String → Bool
same_key namespace key (n, k) = (n === namespace) && (k === key)

unfoldable pub check_and_mark_seen : String → String → PostgresStore → Bool × PostgresStore
check_and_mark_seen namespace key s = elim (find (same_key namespace key) s.idempotency_keys) [
  | some row ↦ (false, s)
  | none ↦ (true, record s { idempotency_keys = s.idempotency_keys ++ (namespace, key) ∷ [] })
]

unfoldable pub save_endpoint_config : String → String → PostgresStore → PostgresStore
save_endpoint_config id config_json s = record s {
  endpoint_configs = set id config_json s.endpoint_configs;
}

unfoldable pub list_endpoint_configs :
    {A : Type 0} → (String → A) → PostgresStore → List (String × A)
list_endpoint_configs parse s = map (λ (e : String × String). (e.0, parse e.1)) s.endpoint_configs

module _ (iso : String → String) where
  unfoldable pub row_to_call : CallSession → CallSession
  unfolding row_to_label
  row_to_call row = record row {
    from = row_to_endpoint row.from;
    to = row_to_endpoint row.to;
    started_at = iso row.started_at;
    ended_at = Option.map iso row.ended_at;
  }

  unfoldable pub row_to_message : MessageRecord → MessageRecord
  unfolding row_to_label
  row_to_message row = record row {
    from = row_to_endpoint row.from;
    to = row_to_endpoint row.to;
    sent_at = iso row.sent_at;
  }

  unfoldable pub row_to_conversation : ConversationRecord → ConversationRecord
  row_to_conversation row = record row {
    created_at = iso row.created_at;
    updated_at = iso row.updated_at;
  }

  unfoldable pub get_call : String → PostgresStore → Option CallSession
  unfolding row_to_call
  get_call id s = Option.map row_to_call (get id s.calls)

  unfoldable pub get_message : String → PostgresStore → Option MessageRecord
  unfolding row_to_message
  get_message id s = Option.map row_to_message (get id s.messages)

  -- `RETURNING *`: the row that was there, or the new one.
  found_or_new :
      Option ConversationRecord
      → ConversationRecord
      → PostgresStore
      → ConversationRecord × PostgresStore
  unfolding row_to_conversation
  found_or_new (some row) fresh s = (row_to_conversation row, s)
  found_or_new none fresh s =
      (row_to_conversation fresh, record s { conversations = s.conversations ++ fresh ∷ [] })

  unfoldable pub get_or_create_conversation :
      String → String → String → String → PostgresStore → ConversationRecord × PostgresStore
  unfolding found_or_new
  get_or_create_conversation new_id now endpoint_id counterpart s =
      found_or_new
        (find (λ c. (c.endpoint_id === endpoint_id) && (c.counterpart === counterpart))
          s.conversations)
        (record {
          id = new_id;
          endpoint_id = endpoint_id;
          counterpart = counterpart;
          created_at = now;
          updated_at = now;
        })
        s

  unfoldable pub row_to_turn : ConversationTurnRecord → ConversationTurnRecord
  row_to_turn row = record row { created_at = iso row.created_at }

  -- `INSERT … RETURNING *`, and the update of the conversation.
  unfoldable pub append_conversation_turn :
      String
      → String
      → String
      → NewConversationTurn
      → PostgresStore
      → ConversationTurnRecord × PostgresStore
  unfolding row_to_turn
  append_conversation_turn new_id now conversation_id turn s =
      let created_at = or_default turn.created_at now in
      let row : ConversationTurnRecord = record {
        id = new_id;
        conversation_id = conversation_id;
        channel = turn.channel;
        role = turn.role;
        content = turn.content;
        call_id = turn.call_id;
        message_id = turn.message_id;
        provider = turn.provider;
        created_at = created_at;
      } in
      (
        row_to_turn row,
        record s {
          conversation_turns = s.conversation_turns ++ row ∷ [];
          conversations =
              map
                (λ (c : ConversationRecord).
                  if c.id === conversation_id then record c { updated_at = created_at } else c)
                s.conversations;
        },
      )

  module _ (newest : (A : Type 0) → (A → String) → List A → List A) where
    unfoldable pub list_calls : Option ℕ → PostgresStore → List CallSession
    unfolding row_to_call
    list_calls limit s = map row_to_call (
        take (or_default limit 200)
          (newest CallSession (λ (c : CallSession). c.started_at) (values s.calls)))

    unfoldable pub list_messages : Option ℕ → PostgresStore → List MessageRecord
    unfolding row_to_message
    list_messages limit s = map row_to_message (
        take (or_default limit 200)
          (newest MessageRecord (λ (r : MessageRecord). r.sent_at) (values s.messages)))

    turns_of : String → PostgresStore → List ConversationTurnRecord
    turns_of id s =
        newest ConversationTurnRecord (λ (t : ConversationTurnRecord). t.created_at)
          (select (λ t. t.conversation_id === id) s.conversation_turns)

    -- The newest ones in chronological order; all of them without a limit, or with the limit 0.
    unfoldable pub list_conversation_turns :
        String → Option ℕ → PostgresStore → List ConversationTurnRecord
    unfolding row_to_turn turns_of
    list_conversation_turns id none s = map row_to_turn (reverse (turns_of id s))
    list_conversation_turns id (some zero) s = map row_to_turn (reverse (turns_of id s))
    list_conversation_turns id (some (suc n)) s =
        map row_to_turn (reverse (take (suc n) (turns_of id s)))
