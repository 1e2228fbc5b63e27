-- ===== src/Core/Types.antt =====
-- src/core/types.ts: the calls, messages and events that providers and the core exchange.
-- Timestamps and identifiers are texts, as in the source; an optional field is an `Option`.
use textbee_gateway.Prelude.{String, Option, List}

pub data ChannelKind : Type 0 where
  voice sms mms chat : ChannelKind

abbrev pub ProviderId : Type 0
ProviderId = String

pub record Endpoint : Type 0 where
  pub address : String
  pub label : Option String

pub data CallState : Type 0 where
  dialing ringing in_progress on_hold ended failed : CallState

pub data Direction : Type 0 where
  outbound inbound : Direction

pub record CallSession : Type 0 where
  pub id : String
  pub provider : ProviderId
  pub direction : Direction
  pub from : Endpoint
  pub to : Endpoint
  pub state : CallState
  pub started_at : String
  pub ended_at : Option String
  pub media_stream_url : Option String

-- `MessageRecord["status"]`
pub data MessageStatus : Type 0 where
  queued sent delivered failed received : MessageStatus

pub record MessageRecord : Type 0 where
  pub id : String
  pub provider : ProviderId
  pub kind : ChannelKind
  pub direction : Direction
  pub from : Endpoint
  pub to : Endpoint
  pub body : Option String
  pub media_urls : Option (List String)
  pub sent_at : String
  pub status : MessageStatus

pub data AdapterEvent : Type 0 where
  call_incoming : CallSession → AdapterEvent
  call_state_changed : String → CallState → AdapterEvent
  call_dtmf : String → String → AdapterEvent
  call_ended : String → Option String → AdapterEvent
  message_incoming : MessageRecord → AdapterEvent
  message_status : String → MessageStatus → AdapterEvent

pub record RoutingRule : Type 0 where
  pub channel : ChannelKind
  pub match : Option String
  pub provider : ProviderId
