-- ===== src/Core/Conversation/Recording.antt =====
-- What src/core/conversation-service.ts records by itself, and the text that it makes of a
-- conversation. A failure to record is only logged. `get_call` is what the core has of a call.
use textbee_gateway.Prelude.{◌+++◌, String, Option, none, some, List, [], ◌∷◌, map, Result, ok, err}
use textbee_gateway.Core.Types.{
  ChannelKind, voice, sms, mms, chat, CallSession, CallState, dialing, ringing, in_progress,
  on_hold, ended, failed, Direction, inbound, outbound, AdapterEvent, call_incoming,
  call_state_changed, call_dtmf, call_ended, message_incoming, message_status,
}
use textbee_gateway.Persistence.Types.{ConversationRole, user, assistant, ConversationTurnRecord}
use textbee_gateway.Core.Conversation.{
  Conversation, ConversationStore, ConversationService, incoming, over, record_message_turn,
  record_call_turn,
}

unfoldable pub direction_text : Direction → String
direction_text inbound = "inbound"
direction_text outbound = "outbound"

unfoldable pub state_text : CallState → String
state_text dialing = "dialing"
state_text ringing = "ringing"
state_text in_progress = "in-progress"
state_text on_hold = "on-hold"
state_text ended = "ended"
state_text failed = "failed"

channel_text : ChannelKind → String
channel_text voice = "voice"
channel_text sms = "sms"
channel_text mms = "mms"
channel_text chat = "chat"

role_text : ConversationRole → String
role_text user = "user"
role_text assistant = "assistant"

turn_line : ConversationTurnRecord → String
unfolding channel_text role_text
turn_line t =
    "["
    +++ t.created_at
    +++ "] "
    +++ channel_text t.channel
    +++ " ("
    +++ role_text t.role
    +++ "): "
    +++ t.content

-- `join("\n")`
join_lines : List String → String
join_lines [] = ""
join_lines (s ∷ []) = s
join_lines (s ∷ t ∷ ss) = s +++ "\n" +++ join_lines (t ∷ ss)

context_of : List ConversationTurnRecord → String
unfolding turn_line join_lines
context_of [] = ""
context_of (t ∷ ts) =
    "Prior conversation history with this contact:\n" +++ join_lines (map turn_line (t ∷ ts))

-- `formatConversationAsContext`
unfoldable pub format_conversation_as_context : Conversation → String
unfolding context_of
format_conversation_as_context c = context_of c.turns

-- What is left where recording may throw.
abbrev pub recorded :
    {S E : Type 0}
    → ConversationService S
    → Result E (ConversationService S)
    → ConversationService S
recorded svc (ok svc') = svc'
recorded svc (err e) = svc

module _ {S E : Type 0} (store : ConversationStore S) (line_of : String → Option String)
    (normalize : String → Result E String) (now : String) where
  record_end : Option CallSession → ConversationService S → ConversationService S
  unfolding record_call_turn
  record_end none svc = svc
  record_end (some c) svc =
      recorded svc (
        record_call_turn store line_of normalize direction_text state_text now c.provider c over
          svc)

  -- The listener of `attachAutoRecording`.
  unfoldable pub auto_record :
      (String → Option CallSession)
      → String
      → AdapterEvent
      → ConversationService S
      → ConversationService S
  unfolding record_end record_message_turn record_call_turn
  auto_record get_call provider (message_incoming m) svc =
      recorded svc (record_message_turn store line_of normalize provider m svc)
  auto_record get_call provider (call_incoming c) svc = recorded svc (
      record_call_turn store line_of normalize direction_text state_text now provider c incoming
        svc)
  auto_record get_call provider (call_ended call_id reason) svc = record_end (get_call call_id) svc
  auto_record get_call provider (call_state_changed call_id state) svc = svc
  auto_record get_call provider (call_dtmf call_id digit) svc = svc
  auto_record get_call provider (message_status message_id status) svc = svc
