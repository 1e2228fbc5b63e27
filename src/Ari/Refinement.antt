-- ===== src/Ari/Refinement.antt =====
-- The events of channels against the automaton of one channel: what a client makes of an event
-- concerns the event's own channel alone, whatever other calls it has.
use textbee_gateway.Prelude.{
  ◌≡◌, refl, arith, Bool, true, false, String, Option, none, some, List, [], ◌∷◌, ◌===◌, ===_refl,
  Bool-cases, Option-cases, inl, inr,
}
use textbee_gateway.JsMap.{JsMap, get, set, delete}
use textbee_gateway.Core.Types.{
  ProviderId, Endpoint, CallState, AdapterEvent, call_incoming, call_state_changed, call_dtmf,
  call_ended,
}
use textbee_gateway.Ari.{
  AriCall, AriChannel, Handled, in_state, inbound_call, is_call, map_ari_state, find_by_channel,
  start_unless_known, on_stasis_start, move_call, on_channel_state_change, dtmf_of,
  on_channel_dtmf_received, forget_call, on_stasis_end,
}
use textbee_gateway.Ari.Channels.{
  IsApart, find_by_channel-set_new, find_by_channel-set_old, find_by_channel-delete,
}
use textbee_gateway.Ari.Channels.Keep.{set_new-IsApart, set_old-IsApart, delete-IsApart}

abbrev pub Calls : Type 0
Calls = JsMap AriCall

-- What an event does to the call of its own channel, and what is emitted.
abbrev pub Effect : Type 0
Effect = Option AriCall → Option AriCall × List AdapterEvent

abbrev pub start_effect : Bool → AriCall → Effect
start_effect false new known = (known, [])
start_effect true new (some known) = (some known, [])
start_effect true new none = (some new, call_incoming new.call ∷ [])

abbrev pub state_effect : CallState → Effect
state_effect state none = (none, [])
state_effect state (some c) = (some (in_state state c), call_state_changed c.call.id state ∷ [])

abbrev pub dtmf_effect : String → Effect
dtmf_effect digit none = (none, [])
dtmf_effect digit (some c) = (some c, call_dtmf c.call.id digit ∷ [])

abbrev pub end_effect : Effect
end_effect none = (none, [])
end_effect (some c) = (none, call_ended c.call.id none ∷ [])

-- A handler has an effect on one channel: its call and the emitted events are as the effect says,
-- every other channel keeps its call, and the calls stay apart.
pub record HasEffect (ch : String) (effect : Effect) (calls : Calls) (h : Handled) : Type 0 where
  pub own : find_by_channel ch h.0 ≡ (effect (find_by_channel ch calls)).0
  pub emitted : h.1 ≡ (effect (find_by_channel ch calls)).1
  pub others :
      (other : String)
      → (ch === other) ≡ false
      → find_by_channel other h.0 ≡ find_by_channel other calls
  pub apart : IsApart h.0

unchanged-HasEffect :
    (ch : String) (effect : Effect) (calls : JsMap AriCall)
    → effect (find_by_channel ch calls) ≡ (find_by_channel ch calls, [])
    → IsApart calls
    → HasEffect ch effect calls (calls, [])
unchanged-HasEffect ch effect calls e w = record {
  own = rw e;
  emitted = rw e;
  others = λ other d. refl;
  apart = w;
}

pub on_stasis_start_new :
    (provider : ProviderId) (callee : Endpoint) (new_id now : String) (c : AriChannel)
    (calls : Calls)
    → is_call c ≡ true
    → find_by_channel c.id calls ≡ none
    → let new = inbound_call provider callee new_id now c in
      on_stasis_start provider callee new_id now c calls
      ≡ (set new_id new calls, call_incoming new.call ∷ [])
unfolding on_stasis_start
on_stasis_start_new provider callee new_id now c calls call absent =
    rw (call, absent, start_unless_known)

pub on_stasis_start_known :
    (provider : ProviderId) (callee : Endpoint) (new_id now : String) (c : AriChannel)
    (calls : Calls) {known : AriCall}
    → find_by_channel c.id calls ≡ some known
    → on_stasis_start provider callee new_id now c calls ≡ (calls, [])
unfolding on_stasis_start
on_stasis_start_known provider callee new_id now c calls found = elim (Bool-cases (is_call c)) [
  | inl call ↦ rw (call, found, start_unless_known)
  | inr other ↦ rw other
]

pub on_channel_state_change_known :
    (ch state : String) (calls : Calls) {c : AriCall}
    → find_by_channel ch calls ≡ some c
    → on_channel_state_change ch state calls ≡ (
      set c.call.id (in_state (map_ari_state state) c) calls,
      call_state_changed c.call.id (map_ari_state state) ∷ [],
    )
unfolding on_channel_state_change
on_channel_state_change_known ch state calls found = rw (found, move_call)

pub on_stasis_end_known :
    (ch : String) (calls : Calls) {c : AriCall}
    → find_by_channel ch calls ≡ some c
    → on_stasis_end ch calls ≡ (delete c.call.id calls, call_ended c.call.id none ∷ [])
unfolding on_stasis_end
on_stasis_end_known ch calls found = rw (found, forget_call)

pub on_stasis_end-HasEffect :
    (ch : String) (calls : Calls)
    → IsApart calls
    → HasEffect ch end_effect calls (on_stasis_end ch calls)
unfolding on_stasis_end
on_stasis_end-HasEffect ch calls w = elim (Option-cases (find_by_channel ch calls)) [
  | inl absent ↦ rw (absent, forget_call) (unchanged-HasEffect ch end_effect calls (rw absent) w)
  | inr (c, found) ↦
      rw (found, forget_call)
        (record {
          own = rw (found, find_by_channel-delete ch ch c calls w found, ===_refl);
          emitted = rw found;
          others = λ other d. rw (find_by_channel-delete ch other c calls w found, d);
          apart = delete-IsApart c.call.id calls w;
        })
]

pub on_channel_state_change-HasEffect :
    (ch state : String) (calls : Calls)
    → IsApart calls
    → HasEffect ch
        (state_effect (map_ari_state state))
        calls
        (on_channel_state_change ch state calls)
unfolding on_channel_state_change
on_channel_state_change-HasEffect ch state calls w =
    elim (Option-cases (find_by_channel ch calls)) [
      | inl absent ↦
          rw (absent, move_call)
            (unchanged-HasEffect ch (state_effect (map_ari_state state)) calls (rw absent) w)
      | inr (c, found) ↦
          let moved = in_state (map_ari_state state) c in
          let after =
            λ (other : String). find_by_channel-set_old ch other c moved calls w found refl in
          rw (found, move_call)
            (record {
              own = rw (found, after ch, ===_refl);
              emitted = rw found;
              others = λ other d. rw (after other, d);
              apart = set_old-IsApart ch c moved calls found refl refl w;
            })
    ]

pub on_channel_dtmf_received-HasEffect :
    (ch digit : String) (calls : Calls)
    → IsApart calls
    → HasEffect ch (dtmf_effect digit) calls (on_channel_dtmf_received ch digit calls)
unfolding on_channel_dtmf_received
on_channel_dtmf_received-HasEffect ch digit calls w =
    elim (Option-cases (find_by_channel ch calls)) [
      | inl absent ↦
          rw (absent, dtmf_of) (unchanged-HasEffect ch (dtmf_effect digit) calls (rw absent) w)
      | inr (c, found) ↦
          rw (found, dtmf_of)
            (record { own = rw found; emitted = rw found; others = λ other d. refl; apart = w })
    ]

pub on_stasis_start-HasEffect :
    (provider : ProviderId) (callee : Endpoint) (new_id now : String) (c : AriChannel)
    (calls : Calls)
    → get new_id calls ≡ none
    → IsApart calls
    → HasEffect c.id
        (start_effect (is_call c) (inbound_call provider callee new_id now c))
        calls
        (on_stasis_start provider callee new_id now c calls)
unfolding on_stasis_start
on_stasis_start-HasEffect provider callee new_id now c calls fresh w =
    elim (Bool-cases (is_call c)) [
      | inl call ↦ elim (Option-cases (find_by_channel c.id calls)) [
        | inl absent ↦
            let new = inbound_call provider callee new_id now c in
            rw (call, absent, start_unless_known)
              (record {
                own = rw (find_by_channel-set_new c.id new_id new calls fresh, ===_refl, absent);
                emitted = rw absent;
                others = λ other d.
                    rw (find_by_channel-set_new other new_id new calls fresh, d) (ground (arith));
                apart = set_new-IsApart new calls fresh absent w;
              })
        | inr (known, found) ↦
            rw (call, found, start_unless_known) (unchanged-HasEffect c.id _ calls (rw found) w)
      ]
      | inr none_such ↦ rw none_such (unchanged-HasEffect c.id _ calls refl w)
    ]
