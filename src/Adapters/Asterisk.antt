-- ===== src/Adapters/Asterisk.antt =====
-- src/adapters/asterisk-ari-adapter.ts, as an `Adapter` of the core whose world is the client with
-- the server behind it. New identifiers, the time and `Date.now` are arguments. `dial` is cut at its
-- await: `finish_dial` is what it does with the answer, and other events may come before it.
pub mod Events
pub mod Follows
pub mod Races
use textbee_gateway.Prelude.{
  ◌+++◌, truthy, Bool, true, false, ◌||◌, String, Option, none, some, List, [], ◌∷◌, Result, ok,
  err, or_default, ◌===◌, if◌then◌else◌,
}
use textbee_gateway.JsMap.{JsMap, set}
use textbee_gateway.Core.Types.{
  ProviderId, Endpoint, CallSession, dialing, outbound, voice, AdapterEvent,
}
use textbee_gateway.Core.Session.{Adapter, Reply, Failure, provider_error, DialOptions}
use textbee_gateway.Media.Capabilities.{MediaBridgeHandle}
use textbee_gateway.Ari.{
  AriCall, AriChannel, AriEvent, stasis_start, channel_state_change, channel_dtmf_received,
  stasis_end, other_event, Handled, on_stasis_start, on_channel_state_change,
  on_channel_dtmf_received, on_stasis_end,
}
use textbee_gateway.Ari.Requests
use textbee_gateway.Ari.Requests.{
  AriRequest, originate, answer_channel, delete_channel, hold_channel, mute_channel,
  redirect_channel, send_channel_dtmf, record_channel, AriClient, undefined_id, ari_request,
  must_get, on_call,
}

pub record AsteriskAriConfig : Type 0 where
  pub base_url : String
  pub username : String
  pub password : String
  pub app_name : String
  pub originate_context : Option String
  pub trunk_endpoint : Option String

-- `init`: the configuration that is kept, or `none` where it throws.
unfoldable pub init : AsteriskAriConfig → Option AsteriskAriConfig
init cfg =
    if (cfg.base_url === "")
      || (cfg.username === "")
      || (cfg.password === "")
      || (cfg.app_name === "")
    then none
    else some
        (record cfg { originate_context = some (or_default cfg.originate_context "from-ai-agent") })

abbrev pub callee_of : AriChannel → Endpoint
callee_of c = record { address = or_default c.dialplan_exten "unknown"; label = none }

-- `handleAriEvent`, on the calls of the adapter `provider`.
unfoldable pub handle_ari_event : ProviderId → String → String → AriEvent → JsMap AriCall → Handled
unfolding on_stasis_start on_channel_state_change on_channel_dtmf_received on_stasis_end
handle_ari_event provider new_id now (stasis_start c) calls =
    on_stasis_start provider (callee_of c) new_id now c calls
handle_ari_event provider new_id now (channel_state_change channel state) calls =
    on_channel_state_change channel state calls
handle_ari_event provider new_id now (channel_dtmf_received channel digit) calls =
    on_channel_dtmf_received channel digit calls
handle_ari_event provider new_id now (stasis_end channel) calls = on_stasis_end channel calls
handle_ari_event provider new_id now other_event calls = (calls, [])

abbrev pub outbound_call : ProviderId → String → String → Endpoint → DialOptions → String → AriCall
outbound_call provider new_id now to opts channel = record {
  call = record {
    id = new_id;
    provider = provider;
    direction = outbound;
    from = or_default opts.from (record { address = "pbx:local"; label = none });
    to = to;
    state = dialing;
    started_at = now;
    ended_at = none;
    media_stream_url = opts.attach_media_stream_url;
  };
  channel_id = channel;
}

abbrev pub originate_request : AsteriskAriConfig → Endpoint → DialOptions → AriRequest
originate_request config to opts =
    originate ("PJSIP/" +++ to.address +++ "@" +++ or_default config.trunk_endpoint "sip-trunk-1")
      config.app_name config.originate_context
      (elim opts.from [ none ↦ none | some e ↦ some e.address ])

module _ {V : Type 0} where
  -- `dial` from the server's answer on.
  unfoldable pub finish_dial :
      ProviderId
      → String
      → String
      → Endpoint
      → DialOptions
      → Result Failure (Option String) × AriClient V
      → Reply (AriClient V) CallSession
  finish_dial provider new_id now to opts (err e, s) = record {
    result = err e;
    emitted = [];
    world = s;
  }
  finish_dial provider new_id now to opts (ok none, s) = record {
    result = err undefined_id;
    emitted = [];
    world = s;
  }
  finish_dial provider new_id now to opts (ok (some channel), s) =
      let c = outbound_call provider new_id now to opts channel in
      record {
        result = ok c.call;
        emitted = [];
        world = record s { calls = set c.call.id c s.calls };
      }

module _ {V : Type 0} (serve : AriRequest → V → Result Failure (Option String) × V)
    (config : AsteriskAriConfig) (new_id now : String) where
  unfoldable pub dial :
      ProviderId → Endpoint → DialOptions → AriClient V → Reply (AriClient V) CallSession
  unfolding ari_request finish_dial
  dial provider to opts s =
      finish_dial provider new_id now to opts
        (ari_request serve (originate_request config to opts) s)

  -- Only the start of a recording is asked of the server.
  unfoldable pub record_call : String → Bool → AriClient V → Reply (AriClient V) (Unit {0})
  unfolding on_call must_get
  record_call call_id true s =
      on_call serve call_id (λ c. record_channel c.channel_id (c.call.id +++ "-" +++ now)) s
  record_call call_id false s = elim (must_get call_id s) [
    | ok c ↦ record { result = ok tt; emitted = []; world = s }
    | err e ↦ record { result = err e; emitted = []; world = s }
  ]

  -- What the core sees of it.
  unfoldable pub asterisk_adapter : ProviderId → Adapter (AriClient V)
  unfolding dial record_call on_call
  asterisk_adapter name = record {
    id = name;
    capabilities = voice ∷ [];
    dial = some (dial name);
    answer = some (λ call_id. on_call serve call_id (λ c. answer_channel c.channel_id));
    hangup = some (λ call_id. on_call serve call_id (λ c. delete_channel c.channel_id));
    hold = some (λ call_id on. on_call serve call_id (λ c. hold_channel c.channel_id on));
    mute = some (λ call_id on. on_call serve call_id (λ c. mute_channel c.channel_id on));
    transfer = some (λ call_id to.
        on_call serve call_id (λ c. redirect_channel c.channel_id ("PJSIP/" +++ to.address)));
    send_dtmf =
        some (λ call_id digits. on_call serve call_id (λ c. send_channel_dtmf c.channel_id digits));
    record_call = some record_call;
    send_message = none;
  }

  -- `startMediaBridge`, whose format has a default.
  unfoldable pub start_media_bridge :
      String → String → Option String → AriClient V → Result Failure MediaBridgeHandle × AriClient V
  start_media_bridge call_id external_host format s =
      Requests.start_media_bridge serve config.app_name call_id external_host
        (or_default format "ulaw") s
