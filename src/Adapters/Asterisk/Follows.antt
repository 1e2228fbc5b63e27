-- ===== src/Adapters/Asterisk/Follows.antt =====
-- The core behind the adapter: what it holds of the calls that the adapter has.
use mathlib.Core.Path.{subst}
use mathlib.Core.Bool.{true≢false}
use mathlib.Core.Option.{some-injective, some-ne-none, none-ne-some}
use textbee_gateway.Prelude.{
  ℕ, ◌≡◌, ◌≢◌, refl, sym, ap, ◌∙◌, String, Option, none, some, List, [], ◌∷◌, Bool, true, false,
  ◌===◌, ===_iff, Bool-cases, inl, inr,
}
use textbee_gateway.JsMap.{get}
use textbee_gateway.Core.Types.{
  ProviderId, CallState, AdapterEvent, call_incoming, call_state_changed, call_dtmf, call_ended,
}
use textbee_gateway.Core.Session.{Manager}
use textbee_gateway.Core.Session.Events.{handle_adapter_event, handle_all}
use textbee_gateway.Core.Session.Events.Cached.{
  handle_adapter_event-other, handle_adapter_event-incoming, handle_adapter_event-state,
  handle_adapter_event-dtmf,
}
use textbee_gateway.Persistence.Types.{PersistenceStore}
use textbee_gateway.Ari.{
  AriCall, AriEvent, stasis_start, channel_state_change, channel_dtmf_received, stasis_end,
  other_event, Handled, in_state, find_by_channel, inbound_call, is_call, map_ari_state,
}
use textbee_gateway.Ari.Channels.{IsApart, find_by_channel-injective, get-find_by_channel}
use textbee_gateway.Ari.Refinement.{Calls, Effect, start_effect, HasEffect}
use textbee_gateway.Adapters.Asterisk.{handle_ari_event, callee_of}
use textbee_gateway.Adapters.Asterisk.Events.{
  event_channel, event_effect, handle_ari_event-HasEffect,
}

-- What one event can make of the call of its channel, with the events that are emitted.
data Change (calls : Calls) : Option AriCall → Option AriCall → List AdapterEvent → Type 0 where
  stays : (o : Option AriCall) → Change calls o o []
  opens :
      (c : AriCall)
      → get c.call.id calls ≡ none
      → Change calls none (some c) (call_incoming c.call ∷ [])
  moves :
      (c : AriCall) (state : CallState)
      → Change calls (some c) (some (in_state state c)) (call_state_changed c.call.id state ∷ [])
  tones :
      (c : AriCall) (digit : String)
      → Change calls (some c) (some c) (call_dtmf c.call.id digit ∷ [])
  closes : (c : AriCall) → Change calls (some c) none (call_ended c.call.id none ∷ [])

start_effect-Change :
    (call : Bool) (new : AriCall) (calls : Calls) (o : Option AriCall)
    → get new.call.id calls ≡ none
    → Change calls o (start_effect call new o).0 (start_effect call new o).1
start_effect-Change false new calls o f = stays o
start_effect-Change true new calls (some k) f = stays (some k)
start_effect-Change true new calls none f = opens new f

event_effect-Change :
    (provider : ProviderId) (new_id now : String) (e : AriEvent) (calls : Calls)
    (o : Option AriCall)
    → get new_id calls ≡ none
    → Change calls o
        (event_effect provider new_id now e o).0
        (event_effect provider new_id now e o).1
event_effect-Change provider new_id now (stasis_start c) calls o f =
    start_effect-Change (is_call c) (inbound_call provider (callee_of c) new_id now c) calls o f
event_effect-Change provider new_id now (channel_state_change ch state) calls none f = stays none
event_effect-Change provider new_id now (channel_state_change ch state) calls (some k) f =
    moves k (map_ari_state state)
event_effect-Change provider new_id now (channel_dtmf_received ch digit) calls none f = stays none
event_effect-Change provider new_id now (channel_dtmf_received ch digit) calls (some k) f =
    tones k digit
event_effect-Change provider new_id now (stasis_end ch) calls none f = stays none
event_effect-Change provider new_id now (stasis_end ch) calls (some k) f = closes k
event_effect-Change provider new_id now other_event calls o f = stays o

module _ {S W : Type 0} (store : PersistenceStore S) (now_at : ℕ → String) where
  -- The core's cache has every call of the adapter, exactly as the adapter has it.
  abbrev pub IsFollowed : Calls → Manager S W → Type 0
  IsFollowed calls m =
      (ch : String) (c : AriCall)
      → find_by_channel ch calls ≡ some c
      → get c.call.id m.calls ≡ some c.call

  own-Change :
      (provider : ProviderId) (ch : String) (calls : Calls) (m : Manager S W) (c : AriCall)
      {o n : Option AriCall} {told : List AdapterEvent}
      → Change calls o n told
      → find_by_channel ch calls ≡ o
      → n ≡ some c
      → IsFollowed calls m
      → get c.call.id (handle_all store now_at provider told m).calls ≡ some c.call
  own-Change provider ch calls m c (stays o) before e f = f ch c (before ∙ e)
  own-Change provider ch calls m c (opens k fresh) before e f =
      subst
        (λ x.
          get x.call.id (handle_adapter_event store now_at provider (call_incoming k.call) m).calls
          ≡ some x.call)
        (some-injective k c e) (handle_adapter_event-incoming store now_at provider k.call m)
  own-Change provider ch calls m c (moves k state) before e f =
      subst
        (λ x.
          get x.call.id
            (handle_adapter_event store now_at provider (call_state_changed k.call.id state)
              m).calls
          ≡ some x.call)
        (some-injective (in_state state k) c e)
        (handle_adapter_event-state store now_at provider k.call.id state k.call m (f ch k before))
  own-Change provider ch calls m c (tones k digit) before e f =
      handle_adapter_event-dtmf store now_at provider k.call.id digit c.call.id m
      ∙ f ch c (before ∙ e)
  own-Change provider ch calls m c (closes k) before e f = absurd (none-ne-some c e)

  -- The calls of other channels, which have other identifiers.
  other-Change :
      (provider : ProviderId) (ch other : String) (calls : Calls) (m : Manager S W) (c : AriCall)
      {o n : Option AriCall} {told : List AdapterEvent}
      → Change calls o n told
      → IsApart calls
      → find_by_channel ch calls ≡ o
      → find_by_channel other calls ≡ some c
      → ch ≢ other
      → get c.call.id (handle_all store now_at provider told m).calls ≡ get c.call.id m.calls
  other-Change provider ch other calls m c (stays o) w before found d = refl
  other-Change provider ch other calls m c (opens k fresh) w before found d =
      handle_adapter_event-other store now_at provider k.call.id c.call.id _ m refl
        (λ e. some-ne-none c (sym (get-find_by_channel other calls w found) ∙ rw (← e) fresh))
  other-Change provider ch other calls m c (moves k state) w before found d =
      handle_adapter_event-other store now_at provider k.call.id c.call.id _ m refl
        (λ e. d (find_by_channel-injective ch other calls w before found e))
  other-Change provider ch other calls m c (tones k digit) w before found d =
      handle_adapter_event-dtmf store now_at provider k.call.id digit c.call.id m
  other-Change provider ch other calls m c (closes k) w before found d =
      handle_adapter_event-other store now_at provider k.call.id c.call.id _ m refl
        (λ e. d (find_by_channel-injective ch other calls w before found e))

  effect-IsFollowed :
      (provider : ProviderId) (ch : String) (effect : Effect) (calls : Calls) (h : Handled)
      (m : Manager S W)
      → ((o : Option AriCall) → Change calls o (effect o).0 (effect o).1)
      → HasEffect ch effect calls h
      → IsApart calls
      → IsFollowed calls m
      → IsFollowed h.0 (handle_all store now_at provider h.1 m)
  effect-IsFollowed provider ch effect calls h m change has w f other c found =
      let change' = change (find_by_channel ch calls) in
      rw has.emitted (elim (Bool-cases (ch === other)) [
        | inl same ↦
            let here = (===_iff ch other).0 same in
            own-Change provider ch calls m c change' refl
              (sym has.own ∙ ap (λ x. find_by_channel x h.0) here ∙ found) f
        | inr differs ↦
            let there : find_by_channel other calls ≡ some c =
              sym (has.others other differs) ∙ found in
            other-Change provider ch other calls m c change' w refl there
              (λ e. true≢false (sym ((===_iff ch other).1 e) ∙ differs))
            ∙ f other c there
      ])

  -- The calls of the adapter are apart, and the core's cache has every one exactly as the adapter
  -- has it; both still hold
  -- after an event of a channel that the adapter handles, with an identifier that none of its calls
  -- has, and of which the core then takes in what the adapter emits.
  pub handle_ari_event-IsFollowed :
      (provider : ProviderId) (new_id now : String) (e : AriEvent) (calls : Calls) (m : Manager S W)
      → IsApart calls
      → get new_id calls ≡ none
      → IsFollowed calls m
      → let (calls', told) = handle_ari_event provider new_id now e calls in
        IsApart calls' × IsFollowed calls' (handle_all store now_at provider told m)
  handle_ari_event-IsFollowed provider new_id now e calls m w fresh f =
      let has = handle_ari_event-HasEffect provider new_id now e calls w fresh in
      (
        has.apart,
        effect-IsFollowed provider (event_channel e) (event_effect provider new_id now e) calls _ m
            (λ o. event_effect-Change provider new_id now e calls o fresh) has w f,
      )
