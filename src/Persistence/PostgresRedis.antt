-- ===== src/Persistence/PostgresRedis.antt =====
-- src/persistence/composite-store.ts: calls, messages and conversations are kept in the SQL store,
-- events and the keys of webhooks go through Redis. What an operation needs of the clock, of new
-- identifiers and of the orders of the listings is an argument, as in the stores.
use textbee_gateway.Prelude.{ℕ, Bool, String, Option, List}
use textbee_gateway.Core.Types.{CallSession, MessageRecord}
use textbee_gateway.Persistence.Types.{
  ConversationRecord, ConversationTurnRecord, NewConversationTurn,
}
use textbee_gateway.Persistence.Postgres
use textbee_gateway.Persistence.Postgres.{PostgresStore}
use textbee_gateway.Persistence.Redis.{
  Redis, RedisStore, subscribe_events, on_message, check_and_mark_seen,
}

pub record PostgresRedisStore (R : Type 0) : Type 0 where
  pub postgres : PostgresStore
  pub redis : RedisStore R

module _ {R : Type 0} where
  unfoldable pub save_call : CallSession → PostgresRedisStore R → PostgresRedisStore R
  save_call c s = record s { postgres = Postgres.save_call c s.postgres }

  unfoldable pub save_message : MessageRecord → PostgresRedisStore R → PostgresRedisStore R
  save_message m s = record s { postgres = Postgres.save_message m s.postgres }

  unfoldable pub subscribe : String → ℕ → PostgresRedisStore R → PostgresRedisStore R
  subscribe channel handler s = record s { redis = subscribe_events channel handler s.redis }

  unfoldable pub handlers : String → PostgresRedisStore R → List ℕ
  handlers channel s = on_message channel s.redis

  unfoldable pub check :
      Redis R → ℕ → ℕ → String → String → PostgresRedisStore R → Bool × PostgresRedisStore R
  check server now ttl namespace key s =
      let (fresh, redis) = check_and_mark_seen server now ttl namespace key s.redis in
      (fresh, record s { redis = redis })

  unfoldable pub save_config : String → String → PostgresRedisStore R → PostgresRedisStore R
  save_config id config_json s = record s {
    postgres = Postgres.save_endpoint_config id config_json s.postgres;
  }

  unfoldable pub list_configs :
      {A : Type 0} → (String → A) → PostgresRedisStore R → List (String × A)
  list_configs parse s = Postgres.list_endpoint_configs parse s.postgres

  module _ (iso : String → String) where
    unfoldable pub get_call : String → PostgresRedisStore R → Option CallSession
    get_call id s = Postgres.get_call iso id s.postgres

    unfoldable pub get_message : String → PostgresRedisStore R → Option MessageRecord
    get_message id s = Postgres.get_message iso id s.postgres

    unfoldable pub get_or_create_conversation :
        String
        → String
        → String
        → String
        → PostgresRedisStore R
        → ConversationRecord × PostgresRedisStore R
    get_or_create_conversation new_id now endpoint_id counterpart s =
        let (r, postgres) =
          Postgres.get_or_create_conversation iso new_id now endpoint_id counterpart s.postgres in
        (r, record s { postgres = postgres })

    unfoldable pub append_conversation_turn :
        String
        → String
        → String
        → NewConversationTurn
        → PostgresRedisStore R
        → ConversationTurnRecord × PostgresRedisStore R
    append_conversation_turn new_id now conversation_id turn s =
        let (r, postgres) =
          Postgres.append_conversation_turn iso new_id now conversation_id turn s.postgres in
        (r, record s { postgres = postgres })

    module _ (newest : (A : Type 0) → (A → String) → List A → List A) where
      unfoldable pub list_calls : Option ℕ → PostgresRedisStore R → List CallSession
      list_calls limit s = Postgres.list_calls iso newest limit s.postgres

      unfoldable pub list_messages : Option ℕ → PostgresRedisStore R → List MessageRecord
      list_messages limit s = Postgres.list_messages iso newest limit s.postgres

      unfoldable pub list_conversation_turns :
          String → Option ℕ → PostgresRedisStore R → List ConversationTurnRecord
      list_conversation_turns id limit s =
          Postgres.list_conversation_turns iso newest id limit s.postgres
