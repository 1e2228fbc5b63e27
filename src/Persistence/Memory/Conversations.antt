-- ===== src/Persistence/Memory/Conversations.antt =====
-- Conversations of the in-memory store: the index and the records agree, and what a key stands for.
use textbee_gateway.Prelude.{
  ◌≡◌, ◌≢◌, ap, ◌∙◌, arith, false, String, none, some, ◌===◌, ===_iff, Bool-cases, Option-cases,
  inl, inr,
}
use textbee_gateway.JsMap.{get, set}
use textbee_gateway.JsMap.Laws.{get-set, get-set_self}
use textbee_gateway.Persistence.Types.{ConversationRecord}
use textbee_gateway.Persistence.Memory.{
  MemoryStore, get_or_create_conversation, conversation_key, truthy_id, found_or_created,
}

abbrev pub new_record : String → String → String → String → ConversationRecord
new_record id now e c = record {
  id = id;
  endpoint_id = e;
  counterpart = c;
  created_at = now;
  updated_at = now;
}

module _ {Config : Type 0} where
  -- Every identifier of the index is one of a record, and none is empty.
  pub record IsIndexed (s : MemoryStore Config) : Type 0 where
    pub present :
        (key id : String)
        → get key s.conversations_by_key ≡ some id
        → (c : ConversationRecord) × (get id s.conversations ≡ some c)
    pub proper : (key id : String) → get key s.conversations_by_key ≡ some id → id ≢ ""

  abbrev with_new : String → ConversationRecord → MemoryStore Config → MemoryStore Config
  with_new key r s = record s {
    conversations = set r.id r s.conversations;
    conversations_by_key = set key r.id s.conversations_by_key;
  }

  if_indexed :
      (new_id now e c : String) (s : MemoryStore Config) {id : String}
      → get (conversation_key e c) s.conversations_by_key ≡ some id
      → id ≢ ""
      → get_or_create_conversation new_id now e c s ≡ (get id s.conversations, s)
  unfolding get_or_create_conversation
  if_indexed new_id now e c s {id} found ne =
      let given : (id === "") ≡ false = ground (arith, ===_iff id "") in
      rw (found, truthy_id, given, found_or_created)

  if_new :
      (new_id now e c : String) (s : MemoryStore Config)
      → get (conversation_key e c) s.conversations_by_key ≡ none
      → get_or_create_conversation new_id now e c s ≡ (
        some (new_record new_id now e c),
        with_new (conversation_key e c) (new_record new_id now e c) s,
      )
  unfolding get_or_create_conversation
  if_new new_id now e c s missing = rw (missing, truthy_id, found_or_created)

  with_new-IsIndexed :
      (key : String) (r : ConversationRecord) (s : MemoryStore Config)
      → r.id ≢ ""
      → IsIndexed s
      → IsIndexed (with_new key r s)
  with_new-IsIndexed key r s ne h = record {
    present = λ k id at. elim (Bool-cases (r.id === id)) [
      | inl same ↦ (r, rw (get-set, same))
      | inr other ↦ elim (Bool-cases (key === k)) [
        | inl here ↦
            let same : some r.id ≡ some id = rw (get-set, here) at at in
            absurd (ground (arith, same, ===_iff r.id id))
        | inr there ↦
            let (c, found) = h.present k id (rw (get-set, there) at at) in
            (c, rw (get-set, other) found)
      ]
    ];
    proper = λ k id at. elim (Bool-cases (key === k)) [
      | inl here ↦ let same : some r.id ≡ some id = rw (get-set, here) at at in λ empty'. ne (cc)
      | inr there ↦ h.proper k id (rw (get-set, there) at at)
    ];
  }

  -- Where the index and the records agree they still do afterwards, for an identifier that is not
  -- empty; a conversation is returned; and asking once more for the same pair, with whatever new
  -- identifier, returns the same one and changes nothing.
  pub get_or_create_conversation_again :
      (id id' now now' e c : String) (s : MemoryStore Config)
      → IsIndexed s
      → id ≢ ""
      → let (r, s') = get_or_create_conversation id now e c s in
        IsIndexed s' × (r ≢ none) × (get_or_create_conversation id' now' e c s' ≡ (r, s'))
  get_or_create_conversation_again id id' now now' e c s h ne =
      elim (Option-cases (get (conversation_key e c) s.conversations_by_key)) [
        | inr (old, found) ↦
            let (r, there) = h.present (conversation_key e c) old found in
            let proper = h.proper (conversation_key e c) old found in
            rw (if_indexed id now e c s found proper)
              (h, λ missing. cc, if_indexed id' now' e c s found proper)
        | inl missing ↦
            let key = conversation_key e c in
            let r = new_record id now e c in
            rw (if_new id now e c s missing) (
              with_new-IsIndexed key r s ne h,
              λ none'. cc,
              if_indexed id' now' e c (with_new key r s)
                    (get-set_self key id s.conversations_by_key) ne
                  ∙ ap (λ o. (o, with_new key r s)) (get-set_self id r s.conversations),
            )
      ]
