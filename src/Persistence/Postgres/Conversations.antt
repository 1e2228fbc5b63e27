-- ===== src/Persistence/Postgres/Conversations.antt =====
-- One conversation for a pair of an endpoint and a counterpart in the SQL store.
use textbee_gateway.Prelude.{
  ◌≡◌, refl, arith, Bool, true, ◌&&◌, String, none, some, List, [], ◌∷◌, ◌++◌, find, ◌===◌, ===_iff,
  ===_refl, if◌then◌else◌, Bool-cases, Option-cases, inl, inr,
}
use textbee_gateway.Persistence.Types.{ConversationRecord}
use textbee_gateway.Persistence.Postgres.{
  PostgresStore, row_to_conversation, get_or_create_conversation, found_or_new,
}

find-append :
    {A : Type 0} (p : A → Bool) (xs : List A) (x : A)
    → find p xs ≡ none
    → find p (xs ++ x ∷ []) ≡ (if p x then some x else none)
find-append p [] x h = ground arith
find-append p (y ∷ ys) x h = elim (Bool-cases (p y)) [
  | inl hit ↦ cc (rw (hit, find) at h)
  | inr miss ↦ rw (miss, find) (find-append p ys x (rw (miss, find) at h))
]

find_holds : {A : Type 0} (p : A → Bool) (xs : List A) (x : A) → find p xs ≡ some x → p x ≡ true
find_holds p [] x h = cc
find_holds p (y ∷ ys) x h = elim (Bool-cases (p y)) [
  | inl hit ↦ cc (hit, rw (hit, find) at h)
  | inr miss ↦ find_holds p ys x (rw (miss, find) at h)
]

abbrev of_pair : String → String → ConversationRecord → Bool
of_pair e c r = (r.endpoint_id === e) && (r.counterpart === c)

of_pair_refl :
    (e c : String) (r : ConversationRecord)
    → r.endpoint_id ≡ e
    → r.counterpart ≡ c
    → of_pair e c r ≡ true
of_pair_refl e c r h k = rw (h, k, ===_refl, ===_refl)

module _ (iso : String → String) where
  abbrev pub new_row : String → String → String → String → ConversationRecord
  new_row id now e c = record {
    id = id;
    endpoint_id = e;
    counterpart = c;
    created_at = now;
    updated_at = now;
  }

  created_if_found :
      (id now e c : String) (s : PostgresStore) {row : ConversationRecord}
      → find (of_pair e c) s.conversations ≡ some row
      → get_or_create_conversation iso id now e c s ≡ (row_to_conversation iso row, s)
  unfolding get_or_create_conversation
  created_if_found id now e c s found = rw (found, found_or_new)

  created_if_missing :
      (id now e c : String) (s : PostgresStore)
      → find (of_pair e c) s.conversations ≡ none
      → get_or_create_conversation iso id now e c s ≡ (
        row_to_conversation iso (new_row id now e c),
        record s { conversations = s.conversations ++ new_row id now e c ∷ [] },
      )
  unfolding get_or_create_conversation
  created_if_missing id now e c s missing = rw (missing, found_or_new)

  -- Asking for the conversation of a pair gives one of that pair; asking for it once more, with
  -- whatever new identifier, gives the same one and changes nothing.
  pub get_or_create_conversation_once :
      (id id' now now' e c : String) (s : PostgresStore)
      → let (r, s') = get_or_create_conversation iso id now e c s in
        (r.endpoint_id ≡ e)
        × (r.counterpart ≡ c)
        × (get_or_create_conversation iso id' now' e c s' ≡ (r, s'))
  get_or_create_conversation_once id id' now now' e c s =
      elim (Option-cases (find (of_pair e c) s.conversations)) [
        | inr (row, found) ↦
            let q = find_holds (of_pair e c) s.conversations row found in
            rw (created_if_found id now e c s found) (
              unfold row_to_conversation in ground (arith, q, ===_iff row.endpoint_id e),
              unfold row_to_conversation in ground (arith, q, ===_iff row.counterpart c),
              created_if_found id' now' e c s found,
            )
        | inl missing ↦ rw (created_if_missing id now e c s missing) (
          unfold row_to_conversation in refl,
          unfold row_to_conversation in refl,
          created_if_found id' now' e c _ (
              rw (find-append (of_pair e c) s.conversations (new_row id now e c) missing)
                (rw (of_pair_refl e c (new_row id now e c) refl refl))),
        )
      ]
