-- ===== src/Persistence/Types.antt =====
-- src/persistence/types.ts: the records of a conversation, and of the interface
-- `PersistenceStore` the operations that the session manager calls, with what it relies on. A store
-- that keeps the first version of a record and updates its state alone, as the SQL store does,
-- satisfies these laws too. A bus handler is a number.
use textbee_gateway.Prelude.{
  ℕ, ◌≡◌, String, Option, some, List, [], ◌∷◌, ◌++◌, ◌===◌, if◌then◌else◌,
}
use mathlib.Core.Option
use textbee_gateway.Core.Types.{ChannelKind, CallSession, CallState, MessageRecord, MessageStatus}

pub record ConversationRecord : Type 0 where
  pub id : String
  pub endpoint_id : String
  pub counterpart : String
  pub created_at : String
  pub updated_at : String

pub data ConversationRole : Type 0 where
  user assistant : ConversationRole

pub record ConversationTurnRecord : Type 0 where
  pub id : String
  pub conversation_id : String
  pub channel : ChannelKind
  pub role : ConversationRole
  pub content : String
  pub call_id : Option String
  pub message_id : Option String
  pub provider : String
  pub created_at : String

pub record NewConversationTurn : Type 0 where
  pub channel : ChannelKind
  pub role : ConversationRole
  pub content : String
  pub call_id : Option String
  pub message_id : Option String
  pub provider : String
  pub created_at : Option String

abbrev pub state_of : Option CallSession → Option CallState
state_of o = Option.map (λ c. c.state) o

abbrev pub status_of : Option MessageRecord → Option MessageStatus
status_of o = Option.map (λ m. m.status) o

pub record PersistenceStore (S : Type 0) : Type 0 where
  pub save_call : CallSession → S → S
  pub get_call : String → S → Option CallSession
  pub save_message : MessageRecord → S → S
  pub get_message : String → S → Option MessageRecord
  pub subscribe_events : String → ℕ → S → S
  pub handlers : String → S → List ℕ
  pub get_call-save_call :
      (j : String) (c : CallSession) (s : S)
      → state_of (get_call j (save_call c s))
        ≡ (if c.id === j then some c.state else state_of (get_call j s))
  pub get_call-save_message :
      (j : String) (m : MessageRecord) (s : S) → get_call j (save_message m s) ≡ get_call j s
  pub get_message-save_message :
      (j : String) (m : MessageRecord) (s : S)
      → status_of (get_message j (save_message m s))
        ≡ (if m.id === j then some m.status else status_of (get_message j s))
  pub get_message-save_call :
      (j : String) (c : CallSession) (s : S) → get_message j (save_call c s) ≡ get_message j s
  pub handlers-save_call :
      (k : String) (c : CallSession) (s : S) → handlers k (save_call c s) ≡ handlers k s
  pub handlers-save_message :
      (k : String) (m : MessageRecord) (s : S) → handlers k (save_message m s) ≡ handlers k s
  pub handlers-subscribe_events :
      (k : String) (h : ℕ) (s : S) → handlers k (subscribe_events k h s) ≡ handlers k s ++ h ∷ []
