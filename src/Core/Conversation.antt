-- ===== src/Core/Conversation.antt =====
-- src/core/conversation-service.ts. The store is what it has of conversations, as an interface; the
-- registry of phone lines is its look-up of the line of a provider, given by the identifier, and
-- whether there is a line of an identifier. `normalize` is normalizePhoneNumber, `is_blank` whether
-- `trim` leaves nothing, and `now` the time.
pub mod Recording
pub mod Transcripts
use Prim.Native.String
use textbee_gateway.Prelude.{
  ℕ, Bool, true, false, String, Option, none, some, List, [], ◌∷◌, Result, ok, err, or_default, map,
  if◌then◌else◌, ◌>>=◌,
}
use textbee_gateway.JsMap.{JsMap, get, set}
use textbee_gateway.Core.Types.{
  CallSession, CallState, MessageRecord, Direction, inbound, outbound, voice,
}
use textbee_gateway.Persistence.Types.{
  ConversationRecord, ConversationRole, user, assistant, ConversationTurnRecord,
  NewConversationTurn,
}

pub record ConversationStore (S : Type 0) : Type 0 where
  pub get_or_create_conversation : String → String → S → ConversationRecord × S
  pub append_conversation_turn : String → NewConversationTurn → S → ConversationTurnRecord × S
  pub list_conversation_turns : String → Option ℕ → S → List ConversationTurnRecord

pub record Conversation : Type 0 where
  pub endpoint_id : String
  pub counterpart : String
  pub turns : List ConversationTurnRecord

-- Which conversation a live call belongs to, and the store.
pub record ConversationService (S : Type 0) : Type 0 where
  pub call_conversation_context : JsMap (String × String)
  pub store : S

pub data Phase : Type 0 where
  incoming outgoing over : Phase

unfoldable pub role_of : Direction → ConversationRole
role_of outbound = assistant
role_of inbound = user

-- The other party: the callee of what goes out, and the caller of what comes in.
pub counterpart_of : {A : Type 0} → Direction → A → A → A
counterpart_of outbound from to = to
counterpart_of inbound from to = from

-- `content` names the direction and the state in words, which are arguments.
call_content : (Direction → String) → (CallState → String) → Phase → CallSession → String
call_content direction_text state_text over c = String.◌++◌ "Call " (
    String.◌++◌ (direction_text c.direction)
      (String.◌++◌ " ended (" (String.◌++◌ (state_text c.state) ")")))
call_content direction_text state_text phase c =
    String.◌++◌ "Call " (String.◌++◌ (direction_text c.direction) " started")

call_time : String → Phase → CallSession → String
call_time now over c = or_default c.ended_at now
call_time now phase c = c.started_at

module _ {S E : Type 0} (store : ConversationStore S) (line_of : String → Option String)
    (normalize : String → Result E String) where
  -- A turn goes to the conversation of a line and a counterpart.
  pub add_turn :
      String → String → NewConversationTurn → ConversationService S → ConversationService S
  add_turn endpoint_id counterpart turn svc =
      let (c, s) = store.get_or_create_conversation endpoint_id counterpart svc.store in
      record svc { store = (store.append_conversation_turn c.id turn s).1 }

  message_turn :
      Option String
      → String
      → MessageRecord
      → ConversationService S
      → Result E (ConversationService S)
  unfolding add_turn
  message_turn none provider m svc = ok svc
  message_turn (some line) provider m svc = do
    counterpart ← normalize (counterpart_of m.direction m.from.address m.to.address)
    ok (
        add_turn line counterpart
          (record {
            channel = m.kind;
            role = role_of m.direction;
            content = or_default m.body "";
            call_id = none;
            message_id = some m.id;
            provider = provider;
            created_at = some m.sent_at;
          })
          svc)

  unfoldable pub record_message_turn :
      String → MessageRecord → ConversationService S → Result E (ConversationService S)
  unfolding message_turn
  record_message_turn provider m svc = message_turn (line_of provider) provider m svc

  module _ (direction_text : Direction → String) (state_text : CallState → String)
      (now : String) where
    pub call_turn :
        Option String
        → String
        → CallSession
        → Phase
        → ConversationService S
        → Result E (ConversationService S)
    unfolding add_turn call_content call_time
    call_turn none provider c phase svc = ok svc
    call_turn (some line) provider c phase svc = do
      counterpart ← normalize (counterpart_of c.direction c.from.address c.to.address)
      ok (
          add_turn line counterpart
            (record {
              channel = voice;
              role = role_of c.direction;
              content = call_content direction_text state_text phase c;
              call_id = some c.id;
              message_id = none;
              provider = provider;
              created_at = some (call_time now phase c);
            })
            (record svc {
              call_conversation_context =
                  set c.id (line, counterpart) svc.call_conversation_context;
            }))

    unfoldable pub record_call_turn :
        String → CallSession → Phase → ConversationService S → Result E (ConversationService S)
    unfolding call_turn
    record_call_turn provider c phase svc = call_turn (line_of provider) provider c phase svc

  abbrev pub transcript_turn : String → ConversationRole → String → NewConversationTurn
  transcript_turn call_id role text = record {
    channel = voice;
    role = role;
    content = text;
    call_id = some call_id;
    message_id = none;
    provider = "realtime-voice-model";
    created_at = none;
  }

  pub in_context :
      Option (String × String) → NewConversationTurn → ConversationService S → ConversationService S
  unfolding add_turn
  in_context none turn svc = svc
  in_context (some (line, counterpart)) turn svc = add_turn line counterpart turn svc

  unfoldable pub record_transcript_turn :
      (String → Bool)
      → String
      → ConversationRole
      → String
      → ConversationService S
      → ConversationService S
  unfolding in_context
  record_transcript_turn is_blank call_id role text svc =
      if is_blank text
      then svc
      else in_context (get call_id svc.call_conversation_context)
          (transcript_turn call_id role text) svc

  -- `none` for a line that is not known.
  unfoldable pub get_conversation :
      (String → Bool)
      → String
      → String
      → Option ℕ
      → ConversationService S
      → Result E (Option Conversation × ConversationService S)
  get_conversation is_line endpoint_id address limit svc =
      if is_line endpoint_id
      then (normalize address >>= (λ counterpart.
          let (c, s) = store.get_or_create_conversation endpoint_id counterpart svc.store in
          ok (
            some (record {
              endpoint_id = endpoint_id;
              counterpart = counterpart;
              turns = store.list_conversation_turns c.id limit s;
            }),
            record svc { store = s },
          )))
      else ok (none, svc)
