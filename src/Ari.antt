-- ===== src/Ari.antt =====
-- What src/adapters/asterisk-ari-adapter.ts and src/cellular/asterisk-chan-mobile-provider.ts have in
-- common, word for word: the calls that a client of the Asterisk REST interface keeps, what it makes
-- of the events of channels, and its requests.
pub mod Channels
pub mod Connection
pub mod Refinement
pub mod Requests
use Prim.Native.String
use text.Mathlib.Text.{starts_with}
use textbee_gateway.Prelude.{
  truthy, Bool, true, false, not, ◌&&◌, ◌||◌, String, Option, none, some, List, [], ◌∷◌, ◌++◌,
  Result, ok, err, ◌===◌, if◌then◌else◌, or_default,
}
use textbee_gateway.JsMap.{JsMap, get, set, delete}
use textbee_gateway.Core.Types.{
  ProviderId, Endpoint, CallSession, CallState, dialing, ringing, in_progress, ended, inbound,
  AdapterEvent, call_incoming, call_state_changed, call_dtmf, call_ended,
}
use textbee_gateway.Core.Session.{Failure, provider_error}

-- `CallSession & { channelId: string }`
pub record AriCall : Type 0 where
  pub call : CallSession
  pub channel_id : String

-- What the handler reads of the channel of an event.
pub record AriChannel : Type 0 where
  pub id : String
  pub name : Option String
  pub unicastrtp_local_address : Option String
  pub caller_number : Option String
  pub dialplan_exten : Option String

pub data AriEvent : Type 0 where
  stasis_start : AriChannel → AriEvent
  channel_state_change : String → String → AriEvent
  channel_dtmf_received : String → String → AriEvent
  stasis_end : String → AriEvent
  other_event : AriEvent

-- `channel?.name?.startsWith("UnicastRTP/")`
has_rtp_name : Option String → Bool
has_rtp_name none = false
has_rtp_name (some name) = starts_with name "UnicastRTP/"

-- The channels of an external medium, and those without a caller and an extension, are no calls.
unfoldable pub is_call : AriChannel → Bool
unfolding has_rtp_name
is_call c =
    not (has_rtp_name c.name || truthy c.unicastrtp_local_address)
    && (truthy c.caller_number || truthy c.dialplan_exten)

unfoldable pub map_ari_state : String → CallState
map_ari_state s =
    if (s === "Ring") || (s === "Ringing")
    then ringing
    else if s === "Up"
    then in_progress
    else dialing

unfoldable pub find_by_channel : String → JsMap AriCall → Option AriCall
find_by_channel channel_id [] = none
find_by_channel channel_id ((k, c) ∷ calls) =
    let rest = find_by_channel channel_id calls in
    if c.channel_id === channel_id then some c else rest

abbrev pub in_state : CallState → AriCall → AriCall
in_state state c = record c { call = record c.call { state = state } }

-- The calls after an event, and what is emitted.
abbrev pub Handled : Type 0
Handled = JsMap AriCall × List AdapterEvent

abbrev pub inbound_call : ProviderId → Endpoint → String → String → AriChannel → AriCall
inbound_call provider callee new_id now c = record {
  call = record {
    id = new_id;
    provider = provider;
    direction = inbound;
    from = record { address = or_default c.caller_number "unknown"; label = none };
    to = callee;
    state = ringing;
    started_at = now;
    ended_at = none;
    media_stream_url = none;
  };
  channel_id = c.id;
}

start_unless_known : Option AriCall → AriCall → JsMap AriCall → Handled
start_unless_known (some known) c calls = (calls, [])
start_unless_known none c calls = (set c.call.id c calls, call_incoming c.call ∷ [])

-- "StasisStart". `callee` is the address that was called.
unfoldable pub on_stasis_start :
    ProviderId → Endpoint → String → String → AriChannel → JsMap AriCall → Handled
unfolding is_call start_unless_known
on_stasis_start provider callee new_id now c calls =
    if is_call c
    then start_unless_known (find_by_channel c.id calls) (inbound_call provider callee new_id now c)
        calls
    else (calls, [])

move_call : Option AriCall → CallState → JsMap AriCall → Handled
move_call none state calls = (calls, [])
move_call (some c) state calls =
    (set c.call.id (in_state state c) calls, call_state_changed c.call.id state ∷ [])

-- "ChannelStateChange"
unfoldable pub on_channel_state_change : String → String → JsMap AriCall → Handled
unfolding move_call map_ari_state
on_channel_state_change channel_id state calls =
    move_call (find_by_channel channel_id calls) (map_ari_state state) calls

dtmf_of : Option AriCall → String → JsMap AriCall → Handled
dtmf_of none digit calls = (calls, [])
dtmf_of (some c) digit calls = (calls, call_dtmf c.call.id digit ∷ [])

-- "ChannelDtmfReceived"
unfoldable pub on_channel_dtmf_received : String → String → JsMap AriCall → Handled
unfolding dtmf_of
on_channel_dtmf_received channel_id digit calls =
    dtmf_of (find_by_channel channel_id calls) digit calls

-- The ended call is reported, and forgotten; nothing reads it in between but who holds the object.
forget_call : Option AriCall → JsMap AriCall → Handled
forget_call none calls = (calls, [])
forget_call (some c) calls = (delete c.call.id calls, call_ended c.call.id none ∷ [])

-- "StasisEnd"
unfoldable pub on_stasis_end : String → JsMap AriCall → Handled
unfolding forget_call
on_stasis_end channel_id calls = forget_call (find_by_channel channel_id calls) calls
