-- ===== src/Core/Session.antt =====
-- src/core/session-manager.ts: the communication core. `S` is the state of a persistence store, of
-- which the core sees the interface alone, and `W` is all else outside the core: the providers and
-- what stands behind them.
--
-- An operation of a provider gives back its result, the events that it emitted before it returned,
-- which the core handles at once, and the world after it. `now` gives the readings of the clock.
-- An update of an object that the core's maps hold is a `set` under its key.
pub mod Routing
pub mod Events
pub mod Operations
pub mod Lifecycle
use textbee_gateway.Prelude.{
  ℕ, zero, suc, ◌+◌, Bool, true, false, String, Option, none, some, List, [], ◌∷◌, ◌++◌, map,
  Result, ok, err, length, ◌==◌, ◌===◌, if◌then◌else◌, or_throw, is_some,
}
use textbee_gateway.JsMap.{JsMap, get, set, values}
use textbee_gateway.Core.Types.{
  ChannelKind, sms, mms, voice, ProviderId, Endpoint, CallSession, CallState, ended, MessageRecord,
  MessageStatus, AdapterEvent, call_incoming, call_state_changed, call_dtmf, call_ended,
  message_incoming, message_status, RoutingRule,
}
use textbee_gateway.Core.Status.{merge_message_status}
use textbee_gateway.Core.Session.Routing.{choose_rule}
use textbee_gateway.Persistence.Types.{PersistenceStore}

pub data Operation : Type 0 where
  dial answer hangup hold mute transfer send_dtmf record_call send_message : Operation

-- What the core throws, and what a provider throws.
pub data Failure : Type 0 where
  no_routing_rule : ChannelKind → Failure
  routing_to_unknown : ProviderId → Failure
  unsupported : Operation → Failure
  unknown_provider : ProviderId → Failure
  unknown_call : String → Failure
  provider_error : String → Failure

pub record Reply (W A : Type 0) : Type 0 where
  pub result : Result Failure A
  pub emitted : List AdapterEvent
  pub world : W

pub record DialOptions : Type 0 where
  pub from : Option Endpoint
  pub attach_media_stream_url : Option String

pub record SendMessageOptions : Type 0 where
  pub from : Option Endpoint
  pub media_urls : Option (List String)

-- `CommunicationAdapter`; a method that a provider may lack is an `Option`.
pub record Adapter (W : Type 0) : Type 0 where
  pub id : ProviderId
  pub capabilities : List ChannelKind
  pub dial : Option (Endpoint → DialOptions → W → Reply W CallSession)
  pub answer : Option (String → W → Reply W (Unit {0}))
  pub hangup : Option (String → W → Reply W (Unit {0}))
  pub hold : Option (String → Bool → W → Reply W (Unit {0}))
  pub mute : Option (String → Bool → W → Reply W (Unit {0}))
  pub transfer : Option (String → Endpoint → W → Reply W (Unit {0}))
  pub send_dtmf : Option (String → String → W → Reply W (Unit {0}))
  pub record_call : Option (String → Bool → W → Reply W (Unit {0}))
  pub send_message : Option (Endpoint → String → SendMessageOptions → W → Reply W MessageRecord)

-- A status event whose message was not in the cache: what the store gave for it, and the status,
-- as they wait for the rest of `persistEvent`.
pub record Pending : Type 0 where
  pub loaded : MessageRecord
  pub status : MessageStatus

pub record Notice : Type 0 where
  pub listener : ℕ
  pub provider : ProviderId
  pub event : AdapterEvent

-- `handler` is the number of the core's own subscription on the bus, `notices` are the calls of
-- listeners so far, and `readings` counts the readings of the clock.
pub record Manager (S W : Type 0) : Type 0 where
  pub adapters : JsMap (Adapter W)
  pub routing : List RoutingRule
  pub calls : JsMap CallSession
  pub messages : JsMap MessageRecord
  pub listeners : List ℕ
  pub store : S
  pub handler : ℕ
  pub pending : List Pending
  pub notices : List Notice
  pub readings : ℕ
