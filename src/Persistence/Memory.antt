-- ===== src/Persistence/Memory.antt =====
-- src/persistence/memory-store.ts. A store is the record of its maps; the set of seen keys is a map
-- to the unit. `localeCompare` is a parameter of the listings: `after a b` says that it puts `a`
-- behind `b`. New identifiers and the time are arguments. Records are values here: the store hands
-- out its own objects where the source does, and what a caller may change in them is not modelled.
pub mod Seen
pub mod Conversations
pub mod Listing
pub mod Laws
use textbee_gateway.Prelude.{
  ℕ, zero, suc, ◌-◌, Bool, true, false, String, Option, none, some, List, [], ◌∷◌, ◌++◌, map,
  length, take, drop, or_default, ◌==◌, ◌===◌, if◌then◌else◌, ◌+++◌,
}
use textbee_gateway.JsMap.{JsMap, get, set, has, values}
use textbee_gateway.Core.Types.{CallSession, MessageRecord}
use textbee_gateway.Persistence.Types.{
  ConversationRecord, ConversationTurnRecord, NewConversationTurn,
}

pub record MemoryStore (Config : Type 0) : Type 0 where
  pub calls : JsMap CallSession
  pub messages : JsMap MessageRecord
  pub subscribers : JsMap (List ℕ)
  pub seen_keys : JsMap (Unit {0})
  pub conversations : JsMap ConversationRecord
  pub conversations_by_key : JsMap String
  pub turns : JsMap (List ConversationTurnRecord)
  pub endpoint_configs : JsMap Config

-- A stable sort by insertion, as `sort` orders for a consistent comparison: `before y x` says that
-- the comparison of `x` with `y` is positive, so that `y` goes in front.
module _ {A : Type 0} (before : A → A → Bool) where
  pub insert : A → List A → List A
  insert x [] = x ∷ []
  insert x (y ∷ ys) = let rest = y ∷ insert x ys in if before y x then rest else x ∷ y ∷ ys

  pub sort : List A → List A
  unfolding insert
  sort [] = []
  sort (x ∷ xs) = insert x (sort xs)

-- `opts?.limit ? all.slice(0, opts.limit) : all`
abbrev pub limited {ℓ} : {A : Type ℓ} → Option ℕ → List A → List A
limited none all = all
limited (some zero) all = all
limited (some (suc n)) all = take (suc n) all

-- `limit ? list.slice(-limit) : list`
abbrev pub latest {ℓ} : {A : Type ℓ} → Option ℕ → List A → List A
latest none list = list
latest (some zero) list = list
latest (some (suc n)) list = drop (length list - suc n) list

unfoldable pub seen_key : String → String → String
seen_key namespace key = namespace +++ ":" +++ key

unfoldable pub conversation_key : String → String → String
conversation_key endpoint_id counterpart = endpoint_id +++ ":" +++ counterpart

abbrev turn_record : String → String → String → NewConversationTurn → ConversationTurnRecord
turn_record new_id now conversation_id turn = record {
  id = new_id;
  conversation_id = conversation_id;
  channel = turn.channel;
  role = turn.role;
  content = turn.content;
  call_id = turn.call_id;
  message_id = turn.message_id;
  provider = turn.provider;
  created_at = or_default turn.created_at now;
}

abbrev touch : String → String → JsMap ConversationRecord → JsMap ConversationRecord
touch id at m = elim (get id m) [ none ↦ m | some c ↦ set id (record c { updated_at = at }) m ]

-- An identifier that is empty counts as none.
truthy_id : Option String → Option String
truthy_id none = none
truthy_id (some id) = if id === "" then none else some id

module _ {Config : Type 0} where
  abbrev pub empty : MemoryStore Config
  empty = record {
    calls = [];
    messages = [];
    subscribers = [];
    seen_keys = [];
    conversations = [];
    conversations_by_key = [];
    turns = [];
    endpoint_configs = [];
  }

  unfoldable pub save_call : CallSession → MemoryStore Config → MemoryStore Config
  save_call c s = record s { calls = set c.id c s.calls }

  unfoldable pub get_call : String → MemoryStore Config → Option CallSession
  get_call id s = get id s.calls

  unfoldable pub save_message : MessageRecord → MemoryStore Config → MemoryStore Config
  save_message m s = record s { messages = set m.id m s.messages }

  unfoldable pub get_message : String → MemoryStore Config → Option MessageRecord
  get_message id s = get id s.messages

  -- The handlers that `publishEvent` calls, in order.
  unfoldable pub handlers : String → MemoryStore Config → List ℕ
  handlers channel s = or_default (get channel s.subscribers) []

  unfoldable pub subscribe_events : String → ℕ → MemoryStore Config → MemoryStore Config
  subscribe_events channel handler s = record s {
    subscribers =
        set channel (or_default (get channel s.subscribers) [] ++ handler ∷ []) s.subscribers;
  }

  unfoldable pub check_and_mark_seen :
      String → String → MemoryStore Config → Bool × MemoryStore Config
  unfolding has seen_key
  check_and_mark_seen namespace key s =
      if has (seen_key namespace key) s.seen_keys
      then (false, s)
      else (true, record s { seen_keys = set (seen_key namespace key) tt s.seen_keys })

  -- `conversations.get(existingId)!`: what is missing is `undefined`.
  found_or_created :
      Option String
      → String
      → ConversationRecord
      → MemoryStore Config
      → Option ConversationRecord × MemoryStore Config
  found_or_created (some existing_id) key created s = (get existing_id s.conversations, s)
  found_or_created none key created s = (
    some created,
    record s {
      conversations = set created.id created s.conversations;
      conversations_by_key = set key created.id s.conversations_by_key;
    },
  )

  unfoldable pub get_or_create_conversation :
      String
      → String
      → String
      → String
      → MemoryStore Config
      → Option ConversationRecord × MemoryStore Config
  unfolding conversation_key truthy_id found_or_created
  get_or_create_conversation new_id now endpoint_id counterpart s =
      found_or_created
        (truthy_id (get (conversation_key endpoint_id counterpart) s.conversations_by_key))
        (conversation_key endpoint_id counterpart)
        (record {
          id = new_id;
          endpoint_id = endpoint_id;
          counterpart = counterpart;
          created_at = now;
          updated_at = now;
        })
        s

  unfoldable pub append_conversation_turn :
      String
      → String
      → String
      → NewConversationTurn
      → MemoryStore Config
      → ConversationTurnRecord × MemoryStore Config
  append_conversation_turn new_id now conversation_id turn s =
      let added = turn_record new_id now conversation_id turn in
      (
        added,
        record s {
          turns =
              set conversation_id (or_default (get conversation_id s.turns) [] ++ added ∷ [])
                s.turns;
          conversations = touch conversation_id added.created_at s.conversations;
        },
      )

  unfoldable pub save_endpoint_config : String → Config → MemoryStore Config → MemoryStore Config
  save_endpoint_config id config s = record s {
    endpoint_configs = set id config s.endpoint_configs;
  }

  unfoldable pub list_endpoint_configs : MemoryStore Config → List (String × Config)
  list_endpoint_configs s = s.endpoint_configs

  unfoldable pub shutdown : MemoryStore Config → MemoryStore Config
  shutdown s = empty

  module _ (after : String → String → Bool) where
    unfoldable pub list_calls : Option ℕ → MemoryStore Config → List CallSession
    unfolding sort
    list_calls limit s =
        limited limit (sort (λ a b. after a.started_at b.started_at) (values s.calls))

    unfoldable pub list_messages : Option ℕ → MemoryStore Config → List MessageRecord
    unfolding sort
    list_messages limit s =
        limited limit (sort (λ a b. after a.sent_at b.sent_at) (values s.messages))

    unfoldable pub list_conversation_turns :
        String → Option ℕ → MemoryStore Config → List ConversationTurnRecord
    unfolding sort
    list_conversation_turns id limit s =
        latest limit
          (sort (λ a b. after b.created_at a.created_at) (or_default (get id s.turns) []))
