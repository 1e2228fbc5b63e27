-- ===== src/Core/Conversation/Transcripts.antt =====
-- What a conversation keeps of a call.
use textbee_gateway.Prelude.{
  ◌≡◌, refl, ap, ◌∙◌, Bool, false, String, Option, some, none, List, [], ◌∷◌, map, foldl, All,
  Result, ok,
}
use textbee_gateway.JsMap.{get, set}
use textbee_gateway.JsMap.Laws.{get-set_self}
use textbee_gateway.Core.Types.{CallSession, inbound, voice, call_incoming}
use textbee_gateway.Persistence.Types.{ConversationRole, user, NewConversationTurn}
use textbee_gateway.Core.Conversation.Recording.{auto_record, direction_text}
use textbee_gateway.Core.Conversation.{
  ConversationStore, ConversationService, counterpart_of, role_of, call_content, call_time,
  add_turn, call_turn, record_call_turn, record_transcript_turn, in_context,
}

-- The turn that says that an incoming call has started.
abbrev pub call_started : String → CallSession → NewConversationTurn
call_started provider c = record {
  channel = voice;
  role = user;
  content = "Call inbound started";
  call_id = some c.id;
  message_id = none;
  provider = provider;
  created_at = some c.started_at;
}

-- The turn of words that were spoken.
abbrev pub spoken_turn : String → ConversationRole × String → NewConversationTurn
spoken_turn call_id (role, text) = record {
  channel = voice;
  role = role;
  content = text;
  call_id = some call_id;
  message_id = none;
  provider = "realtime-voice-model";
  created_at = none;
}

module _ {S E : Type 0} (store : ConversationStore S) (line_of : String → Option String)
    (normalize : String → Result E String) where
  -- A store with one more turn in the conversation of a line and an address.
  abbrev pub appended : String → String → S → NewConversationTurn → S
  appended line counterpart s turn =
      let (c, s') = store.get_or_create_conversation line counterpart s in
      (store.append_conversation_turn c.id turn s').1

  -- Words with who said them, one after the other.
  abbrev pub record_words :
      (String → Bool)
      → String
      → List (ConversationRole × String)
      → ConversationService S
      → ConversationService S
  record_words is_blank call_id words svc =
      foldl
        (λ s (w : ConversationRole × String).
          record_transcript_turn store line_of normalize is_blank call_id w.0 w.1 s)
        svc words

  record_words-store :
      (is_blank : String → Bool) (call_id line counterpart : String)
      (words : List (ConversationRole × String)) (svc : ConversationService S)
      → All (λ (w : ConversationRole × String). is_blank w.1 ≡ false) words
      → get call_id svc.call_conversation_context ≡ some (line, counterpart)
      → (record_words is_blank call_id words svc).store
        ≡ foldl (appended line counterpart) svc.store (map (spoken_turn call_id) words)
  unfolding add_turn record_transcript_turn
  record_words-store is_blank call_id line counterpart [] svc spoken found = refl
  record_words-store is_blank call_id line counterpart ((role, text) ∷ words) svc spoken found =
      let said : record_transcript_turn store line_of normalize is_blank call_id role text svc
          ≡ add_turn store line_of normalize line counterpart (spoken_turn call_id (role, text))
              svc =
        rw (spoken.0, found, in_context) refl in
      ap (λ (svc' : ConversationService S). (record_words is_blank call_id words svc').store) said
      ∙ record_words-store is_blank call_id line counterpart words
          (add_turn store line_of normalize line counterpart (spoken_turn call_id (role, text)) svc)
          spoken.1 found

  module _ (now : String) where
    auto_record-call_incoming :
        (get_call : String → Option CallSession) (provider line counterpart : String)
        (c : CallSession) (svc : ConversationService S)
        → line_of provider ≡ some line
        → c.direction ≡ inbound
        → normalize c.from.address ≡ ok counterpart
        → auto_record store line_of normalize now get_call provider (call_incoming c) svc
          ≡ add_turn store line_of normalize line counterpart
              (call_started provider c)
              (record svc {
                call_conversation_context =
                    set c.id (line, counterpart) svc.call_conversation_context;
              })
    unfolding auto_record record_call_turn call_content call_time role_of counterpart_of
        direction_text
    auto_record-call_incoming get_call provider line counterpart c svc on_line came_in number =
        rw (on_line, call_turn, came_in, number) refl

    -- An incoming call on a line, from an address that can be normalised, and then words of it in
    -- turn, none of them blank: the store gets, in the conversation of that line and that address,
    -- the turn that says that the call has started, and after it one turn for each of the words in
    -- their order.
    pub transcript_of_incoming_call :
        (get_call : String → Option CallSession) (provider line counterpart : String)
        (c : CallSession) (words : List (ConversationRole × String)) (is_blank : String → Bool)
        (svc : ConversationService S)
        → line_of provider ≡ some line
        → c.direction ≡ inbound
        → normalize c.from.address ≡ ok counterpart
        → All (λ (w : ConversationRole × String). is_blank w.1 ≡ false) words
        → (record_words is_blank c.id words
            (auto_record store line_of normalize now get_call provider (call_incoming c) svc)).store
          ≡ foldl
              (appended line counterpart)
              svc.store
              (call_started provider c ∷ map (spoken_turn c.id) words)
    transcript_of_incoming_call get_call provider line counterpart c words is_blank svc on_line
          came_in number spoken =
        rw
          (auto_record-call_incoming get_call provider line counterpart c svc on_line came_in
            number)
          (unfold add_turn in
            record_words-store is_blank c.id line counterpart words
              (add_turn store line_of normalize line counterpart (call_started provider c) _) spoken
              (get-set_self c.id (line, counterpart) svc.call_conversation_context))
