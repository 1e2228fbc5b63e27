-- ===== src/Persistence/Redis.antt =====
-- src/persistence/redis-store.ts. `Redis` has the commands of the server that the store sends, as
-- Redis documents them: times are in seconds, and a key that was set with a length of life is not
-- there after it. JSON, new identifiers and the time are arguments. A handler is a number.
pub mod Idempotency
pub mod Expiry
use textbee_gateway.Prelude.{
  ℕ, zero, suc, ◌+◌, ◌≤◌, ◌≡◌, Bool, true, false, String, Option, none, some, List, [], ◌∷◌, ◌++◌,
  map, if◌then◌else◌, or_default, ltb, ◌===◌, ◌+++◌,
}
use textbee_gateway.JsMap.{JsMap, get}
use textbee_gateway.Core.Types.{CallSession, MessageRecord}
use textbee_gateway.Persistence.Types.{
  ConversationRecord, ConversationTurnRecord, NewConversationTurn,
}

pub record Redis (R : Type 0) : Type 0 where
  pub get : ℕ → String → R → Option String
  pub set : String → String → R → R
  pub set_ex : ℕ → String → String → ℕ → R → R
  -- `SET key value EX ttl NX`: whether the answer is "OK".
  pub set_nx_ex : ℕ → String → String → ℕ → R → Bool × R
  -- `KEYS` of a prefix.
  pub keys : ℕ → String → R → List String
  pub hset : String → List (String × String) → R → R
  pub hgetall : String → R → JsMap String
  pub rpush : String → String → R → R
  -- `LRANGE` of the last elements, or of all.
  pub lrange_last : String → ℕ → R → List String
  pub lrange_all : String → R → List String
  pub get-set_ex :
      (now later : ℕ) (j k v : String) (ttl : ℕ) (r : R)
      → now ≤ later
      → get later j (set_ex now k v ttl r)
        ≡ (if k === j then (if ltb later (now + ttl) then some v else none) else get later j r)
  pub set_nx_ex-absent :
      (now : ℕ) (k v : String) (ttl : ℕ) (r : R)
      → get now k r ≡ none
      → set_nx_ex now k v ttl r ≡ (true, set_ex now k v ttl r)
  pub set_nx_ex-present :
      (now : ℕ) (k v w : String) (ttl : ℕ) (r : R)
      → get now k r ≡ some w
      → set_nx_ex now k v ttl r ≡ (false, r)

-- The connections, with what subscribed to a channel, in order.
pub record RedisStore (R : Type 0) : Type 0 where
  pub prefix : String
  pub redis : R
  pub subscriptions : List (String × ℕ)

abbrev pub seconds_per_day : ℕ
seconds_per_day = 86400

-- `raw ? JSON.parse(raw) : null`
parsed {ℓ} : {A : Type ℓ} → (String → A) → Option String → Option A
parsed parse none = none
parsed parse (some raw) = if raw === "" then none else some (parse raw)

-- The values that are there, parsed.
parsed_all {ℓ} : {A : Type ℓ} → (String → A) → List (Option String) → List A
parsed_all parse [] = []
parsed_all parse (none ∷ values) = parsed_all parse values
parsed_all parse (some raw ∷ values) =
    let rest = parsed_all parse values in if raw === "" then rest else parse raw ∷ rest

pub listeners : String → List (String × ℕ) → List ℕ
listeners channel [] = []
listeners channel ((full_channel, handler) ∷ subscriptions) =
    let rest = listeners channel subscriptions in
    if channel === full_channel then handler ∷ rest else rest

-- The fields of a conversation as they come back: `none` where one is missing.
conversation_of : String → JsMap String → Option ConversationRecord
conversation_of id raw = elim (get "endpointId" raw) [
  | none ↦ none
  | some endpoint_id ↦ elim (get "counterpart" raw) [
    | none ↦ none
    | some counterpart ↦ elim (get "createdAt" raw) [
      | none ↦ none
      | some created_at ↦ elim (get "updatedAt" raw) [
        | none ↦ none
        | some updated_at ↦ some (record {
          id = id;
          endpoint_id = endpoint_id;
          counterpart = counterpart;
          created_at = created_at;
          updated_at = updated_at;
        })
      ]
    ]
  ]
]

abbrev pub idempotency_key : String → String → String → String
idempotency_key prefix namespace key = prefix +++ ":idempotency:" +++ namespace +++ ":" +++ key

module _ {R : Type 0} where
  unfoldable pub subscribe_events : String → ℕ → RedisStore R → RedisStore R
  subscribe_events channel handler s = record s {
    subscriptions = s.subscriptions ++ (s.prefix +++ ":" +++ channel, handler) ∷ [];
  }

  -- The handlers that a message on a channel of the server reaches.
  unfoldable pub on_message : String → RedisStore R → List ℕ
  unfolding listeners
  on_message channel s = listeners channel s.subscriptions

module _ {R : Type 0} (server : Redis R) where
  unfoldable pub save_call : (CallSession → String) → ℕ → CallSession → RedisStore R → RedisStore R
  save_call json now c s = record s {
    redis = server.set_ex now (s.prefix +++ ":call:" +++ c.id) (json c) seconds_per_day s.redis;
  }

  unfoldable pub get_call : (String → CallSession) → ℕ → String → RedisStore R → Option CallSession
  unfolding parsed
  get_call parse now call_id s =
      parsed parse (server.get now (s.prefix +++ ":call:" +++ call_id) s.redis)

  -- The values are asked for after the keys.
  unfoldable pub list_calls : (String → CallSession) → ℕ → ℕ → RedisStore R → List CallSession
  unfolding parsed_all
  list_calls parse now later s =
      parsed_all parse
        (map (λ k. server.get later k s.redis) (server.keys now (s.prefix +++ ":call:") s.redis))

  unfoldable pub save_message :
      (MessageRecord → String) → ℕ → MessageRecord → RedisStore R → RedisStore R
  save_message json now m s = record s {
    redis = server.set_ex now (s.prefix +++ ":message:" +++ m.id) (json m) seconds_per_day s.redis;
  }

  unfoldable pub get_message :
      (String → MessageRecord) → ℕ → String → RedisStore R → Option MessageRecord
  unfolding parsed
  get_message parse now message_id s =
      parsed parse (server.get now (s.prefix +++ ":message:" +++ message_id) s.redis)

  unfoldable pub list_messages :
      (String → MessageRecord) → ℕ → ℕ → RedisStore R → List MessageRecord
  unfolding parsed_all
  list_messages parse now later s =
      parsed_all parse
        (map (λ k. server.get later k s.redis) (server.keys now (s.prefix +++ ":message:") s.redis))

  unfoldable pub check_and_mark_seen : ℕ → ℕ → String → String → RedisStore R → Bool × RedisStore R
  check_and_mark_seen now ttl namespace key s =
      let (fresh, redis) =
        server.set_nx_ex now (idempotency_key s.prefix namespace key) "1" ttl s.redis in
      (fresh, record s { redis = redis })

  -- A conversation that is made: its identifier under the key of the pair, and its fields.
  created : String → ConversationRecord → RedisStore R → RedisStore R
  created index_key r s = record s {
    redis =
        server.hset (s.prefix +++ ":conv:" +++ r.id)
          (("id", r.id)
            ∷ ("endpointId", r.endpoint_id)
            ∷ ("counterpart", r.counterpart)
            ∷ ("createdAt", r.created_at)
            ∷ ("updatedAt", r.updated_at)
            ∷ [])
          (server.set index_key r.id s.redis);
  }

  found_or_made :
      Option String
      → String
      → ConversationRecord
      → RedisStore R
      → Option ConversationRecord × RedisStore R
  unfolding created conversation_of
  found_or_made none index_key r s = (some r, created index_key r s)
  found_or_made (some id) index_key r s =
      if id === ""
      then (some r, created index_key r s)
      else (conversation_of id (server.hgetall (s.prefix +++ ":conv:" +++ id) s.redis), s)

  unfoldable pub get_or_create_conversation :
      ℕ
      → String
      → String
      → String
      → String
      → RedisStore R
      → Option ConversationRecord × RedisStore R
  unfolding found_or_made
  get_or_create_conversation now new_id time endpoint_id counterpart s =
      let index_key = s.prefix +++ ":conv-index:" +++ endpoint_id +++ ":" +++ counterpart in
      found_or_made (server.get now index_key s.redis) index_key
        (record {
          id = new_id;
          endpoint_id = endpoint_id;
          counterpart = counterpart;
          created_at = time;
          updated_at = time;
        })
        s

  unfoldable pub append_conversation_turn :
      (ConversationTurnRecord → String)
      → String
      → String
      → String
      → NewConversationTurn
      → RedisStore R
      → ConversationTurnRecord × RedisStore R
  append_conversation_turn json new_id time conversation_id turn s =
      let r : ConversationTurnRecord = record {
        id = new_id;
        conversation_id = conversation_id;
        channel = turn.channel;
        role = turn.role;
        content = turn.content;
        call_id = turn.call_id;
        message_id = turn.message_id;
        provider = turn.provider;
        created_at = or_default turn.created_at time;
      } in
      (
        r,
        record s {
          redis =
              server.hset (s.prefix +++ ":conv:" +++ conversation_id)
                (("updatedAt", r.created_at) ∷ [])
                (server.rpush (s.prefix +++ ":conv-turns:" +++ conversation_id) (json r) s.redis);
        },
      )

  turns_at : Option ℕ → String → R → List String
  turns_at none key r = server.lrange_all key r
  turns_at (some zero) key r = server.lrange_all key r
  turns_at (some (suc n)) key r = server.lrange_last key (suc n) r

  unfoldable pub list_conversation_turns :
      (String → ConversationTurnRecord)
      → String
      → Option ℕ
      → RedisStore R
      → List ConversationTurnRecord
  unfolding turns_at
  list_conversation_turns parse conversation_id limit s =
      map parse (turns_at limit (s.prefix +++ ":conv-turns:" +++ conversation_id) s.redis)

  unfoldable pub save_endpoint_config : String → String → RedisStore R → RedisStore R
  save_endpoint_config id config_json s = record s {
    redis = server.hset (s.prefix +++ ":endpoint-configs") ((id, config_json) ∷ []) s.redis;
  }

  unfoldable pub list_endpoint_configs :
      {A : Type 0} → (String → A) → RedisStore R → List (String × A)
  list_endpoint_configs parse s =
      map (λ (e : String × String). (e.0, parse e.1))
        (server.hgetall (s.prefix +++ ":endpoint-configs") s.redis)
