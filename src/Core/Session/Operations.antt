-- ===== src/Core/Session/Operations.antt =====
-- The operations of the core on calls and messages. Each gives back its result, the core and the
-- world after it; an operation that throws keeps what was done before.
pub mod Tracking
use textbee_gateway.Prelude.{
  ℕ, Bool, true, false, String, Option, none, some, List, [], ◌∷◌, ◌++◌, Result, ok, err, or_throw,
  if◌then◌else◌, ◌>>=◌, ◌===◌,
}
use mathlib.Core.Option
use textbee_gateway.JsMap.{JsMap, get, set, values}
use textbee_gateway.Core.Types.{
  ChannelKind, sms, mms, voice, ProviderId, Endpoint, CallSession, MessageRecord, AdapterEvent,
  RoutingRule,
}
use textbee_gateway.Core.Session.{
  Manager, Adapter, Reply, Failure, no_routing_rule, routing_to_unknown, unsupported,
  unknown_provider, unknown_call, Operation, DialOptions, SendMessageOptions,
}
use textbee_gateway.Core.Session.Routing.{choose_rule, or_else}
use textbee_gateway.Core.Session.Events.{handle_all, events_channel}
use textbee_gateway.Persistence.Types.{PersistenceStore}

-- `opts` of `dial` and `sendMessage`, the provider that a caller may name among them.
pub record DialRequest : Type 0 where
  pub provider_id : Option ProviderId
  pub options : DialOptions

pub record SendRequest : Type 0 where
  pub provider_id : Option ProviderId
  pub options : SendMessageOptions

module _ {S W : Type 0} where
  unfoldable pub must_get : ProviderId → Manager S W → Result Failure (Adapter W)
  must_get id m = or_throw (unknown_provider id) (get id m.adapters)

  unfoldable pub must_get_call : String → Manager S W → Result Failure (Adapter W)
  unfolding must_get
  must_get_call call_id m = do
    call ← or_throw (unknown_call call_id) (get call_id m.calls)
    must_get call.provider m

  unfoldable pub resolve_provider :
      ChannelKind → Endpoint → Manager S W → Result Failure (Adapter W)
  resolve_provider channel to m = do
    rule ← or_throw (no_routing_rule channel) (choose_rule m.routing channel to.address)
    or_throw (routing_to_unknown rule.provider) (get rule.provider m.adapters)

  -- `providerId ? mustGet(providerId) : resolveProvider(channel, to)`, where an empty text is
  -- false.
  unfoldable pub provider_for :
      Option ProviderId → ChannelKind → Endpoint → Manager S W → Result Failure (Adapter W)
  unfolding must_get resolve_provider
  provider_for none channel to m = resolve_provider channel to m
  provider_for (some id) channel to m =
      if id === "" then resolve_provider channel to m else must_get id m

  unfoldable pub register_adapter : Adapter W → Manager S W → Manager S W
  register_adapter a m = record m { adapters = set a.id a m.adapters }

  unfoldable pub set_routing : List RoutingRule → Manager S W → Manager S W
  set_routing routing m = record m { routing = routing }

  unfoldable pub on_event : ℕ → Manager S W → Manager S W
  on_event listener m = record m { listeners = m.listeners ++ listener ∷ [] }

  abbrev pub list_calls : Manager S W → List CallSession
  list_calls m = values m.calls

  abbrev pub list_messages : Manager S W → List MessageRecord
  list_messages m = values m.messages

-- `opts?.mediaUrls?.length ? "mms" : "sms"`
unfoldable pub message_kind : Option (List String) → ChannelKind
message_kind none = sms
message_kind (some []) = sms
message_kind (some (u ∷ us)) = mms

-- What an operation gives back.
abbrev pub Outcome : Type 0 → Type 0 → Type 0 → Type 0
Outcome S W A = Result Failure A × Manager S W × W

module _ {S W : Type 0} (store : PersistenceStore S) (now : ℕ → String) where
  -- What a provider emitted during a call is handled before the call returns.
  abbrev pub awaited : {A : Type 0} → ProviderId → Reply W A → Manager S W → Outcome S W A
  awaited id reply m = (reply.result, handle_all store now id reply.emitted m, reply.world)

  -- An operation on a call that its provider may support.
  run_on :
      Operation
      → Option (W → Reply W (Unit {0}))
      → ProviderId
      → Manager S W
      → W
      → Outcome S W (Unit {0})
  run_on op none id m w = (err (unsupported op), m, w)
  run_on op (some f) id m w = awaited id (f w) m

  with_adapter :
      Operation
      → (Adapter W → Option (W → Reply W (Unit {0})))
      → Result Failure (Adapter W)
      → Manager S W
      → W
      → Outcome S W (Unit {0})
  unfolding run_on
  with_adapter op pick (err e) m w = (err e, m, w)
  with_adapter op pick (ok a) m w = run_on op (pick a) a.id m w

  unfoldable pub answer : String → Manager S W → W → Outcome S W (Unit {0})
  unfolding with_adapter
  answer call_id m w =
      with_adapter Operation.answer (λ a. Option.map (λ f. f call_id) a.answer)
        (must_get_call call_id m) m w

  unfoldable pub hangup : String → Manager S W → W → Outcome S W (Unit {0})
  unfolding with_adapter
  hangup call_id m w =
      with_adapter Operation.hangup (λ a. Option.map (λ f. f call_id) a.hangup)
        (must_get_call call_id m) m w

  unfoldable pub hold : String → Bool → Manager S W → W → Outcome S W (Unit {0})
  unfolding with_adapter
  hold call_id on m w =
      with_adapter Operation.hold (λ a. Option.map (λ f. f call_id on) a.hold)
        (must_get_call call_id m) m w

  unfoldable pub mute : String → Bool → Manager S W → W → Outcome S W (Unit {0})
  unfolding with_adapter
  mute call_id on m w =
      with_adapter Operation.mute (λ a. Option.map (λ f. f call_id on) a.mute)
        (must_get_call call_id m) m w

  unfoldable pub transfer : String → Endpoint → Manager S W → W → Outcome S W (Unit {0})
  unfolding with_adapter
  transfer call_id to m w =
      with_adapter Operation.transfer (λ a. Option.map (λ f. f call_id to) a.transfer)
        (must_get_call call_id m) m w

  unfoldable pub send_dtmf : String → String → Manager S W → W → Outcome S W (Unit {0})
  unfolding with_adapter
  send_dtmf call_id digits m w =
      with_adapter Operation.send_dtmf (λ a. Option.map (λ f. f call_id digits) a.send_dtmf)
        (must_get_call call_id m) m w

  unfoldable pub record_call : String → Bool → Manager S W → W → Outcome S W (Unit {0})
  unfolding with_adapter
  record_call call_id on m w =
      with_adapter Operation.record_call (λ a. Option.map (λ f. f call_id on) a.record_call)
        (must_get_call call_id m) m w

  -- `trackExternalCall`, and the end of `dial`.
  unfoldable pub track_external_call : CallSession → Manager S W → Manager S W
  track_external_call c m = record m {
    calls = set c.id c m.calls;
    store = store.save_call c m.store;
  }

  tracked : Outcome S W CallSession → Outcome S W CallSession
  unfolding track_external_call
  tracked (err e, m, w) = (err e, m, w)
  tracked (ok c, m, w) = (ok c, track_external_call c m, w)

  dial_with :
      Option (Endpoint → DialOptions → W → Reply W CallSession)
      → ProviderId
      → Endpoint
      → DialOptions
      → Manager S W
      → W
      → Outcome S W CallSession
  unfolding tracked
  dial_with none id to options m w = (err (unsupported Operation.dial), m, w)
  dial_with (some f) id to options m w = tracked (awaited id (f to options w) m)

  dial_by :
      Result Failure (Adapter W)
      → Endpoint
      → DialOptions
      → Manager S W
      → W
      → Outcome S W CallSession
  unfolding dial_with
  dial_by (err e) to options m w = (err e, m, w)
  dial_by (ok a) to options m w = dial_with a.dial a.id to options m w

  unfoldable pub dial : Endpoint → DialRequest → Manager S W → W → Outcome S W CallSession
  unfolding dial_by
  dial to request m w = dial_by (provider_for request.provider_id voice to m) to request.options m w

  stored : Outcome S W MessageRecord → Outcome S W MessageRecord
  stored (err e, m, w) = (err e, m, w)
  stored (ok r, m, w) =
      (ok r, record m { messages = set r.id r m.messages; store = store.save_message r m.store }, w)

  send_with :
      Option (Endpoint → String → SendMessageOptions → W → Reply W MessageRecord)
      → ProviderId
      → Endpoint
      → String
      → SendMessageOptions
      → Manager S W
      → W
      → Outcome S W MessageRecord
  unfolding stored
  send_with none id to body options m w = (err (unsupported Operation.send_message), m, w)
  send_with (some f) id to body options m w = stored (awaited id (f to body options w) m)

  send_by :
      Result Failure (Adapter W)
      → Endpoint
      → String
      → SendMessageOptions
      → Manager S W
      → W
      → Outcome S W MessageRecord
  unfolding send_with
  send_by (err e) to body options m w = (err e, m, w)
  send_by (ok a) to body options m w = send_with a.send_message a.id to body options m w

  unfoldable pub send_message :
      Endpoint → String → SendRequest → Manager S W → W → Outcome S W MessageRecord
  unfolding send_by message_kind
  send_message to body request m w =
      send_by (provider_for request.provider_id (message_kind request.options.media_urls) to m) to
        body request.options m w

  -- `getCallDurable`
  unfoldable pub get_call_durable : String → Manager S W → Option CallSession
  get_call_durable call_id m = or_else (get call_id m.calls) (store.get_call call_id m.store)
