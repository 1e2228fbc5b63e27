-- ===== src/Cellular/ChanMobile.antt =====
-- src/cellular/asterisk-chan-mobile-provider.ts, as a `CellularVoiceProvider` of the registry whose
-- world is the client with the server behind it. `fill` is what the template of a channel becomes
-- with a number, `message` the text of a failure. The registry calls `dial` and
-- `simulateIncomingCall` for lines with a number alone. Both are cut at their await, like `dial` of
-- the adapter in Adapters/Asterisk.
pub mod Events
use textbee_gateway.Prelude.{
  ◌+++◌, truthy, Bool, true, false, not, ◌||◌, ◌&&◌, String, Option, none, some, List, [], ◌∷◌,
  Result, ok, err, find, is_some, or_default, ◌===◌, if◌then◌else◌,
}
use textbee_gateway.JsMap.{JsMap, set}
use textbee_gateway.Core.Types.{
  ProviderId, Endpoint, CallSession, dialing, ringing, outbound, inbound, AdapterEvent,
  call_incoming,
}
use textbee_gateway.Core.Session.{Reply, Failure, provider_error}
use textbee_gateway.Cellular.Types.{
  CellularEndpointConfig, VoiceProviderStatus, CellularVoiceProvider,
}
use textbee_gateway.Ari.{
  AriCall, AriEvent, stasis_start, channel_state_change, channel_dtmf_received, stasis_end,
  other_event, Handled, on_stasis_start, on_channel_state_change, on_stasis_end,
}
use textbee_gateway.Media.Capabilities.{MediaBridgeHandle}
use textbee_gateway.Ari.Requests
use textbee_gateway.Ari.Requests.{
  AriRequest, originate, answer_channel, delete_channel, hold_channel, mute_channel,
  redirect_channel, send_channel_dtmf, AriClient, undefined_id, ari_request, on_call,
}

pub record AsteriskChanMobileConfig : Type 0 where
  pub base_url : String
  pub username : String
  pub password : String
  pub app_name : String
  pub chan_mobile_device : String
  pub channel_template : Option String
  pub simulated : Bool

-- `init`: the configuration that is kept, or `none` where it throws.
unfoldable pub init : AsteriskChanMobileConfig → Option AsteriskChanMobileConfig
init cfg =
    if (cfg.base_url === "")
      || (cfg.username === "")
      || (cfg.password === "")
      || (cfg.app_name === "")
      || ((cfg.chan_mobile_device === "") && not (truthy cfg.channel_template))
    then none
    else some cfg

abbrev pub device_of : AsteriskChanMobileConfig → Endpoint
device_of config = record { address = config.chan_mobile_device; label = none }

-- `handleAriEvent`, which has no case for tones.
unfoldable pub handle_ari_event :
    AsteriskChanMobileConfig → ProviderId → String → String → AriEvent → JsMap AriCall → Handled
unfolding on_stasis_start on_channel_state_change on_stasis_end
handle_ari_event config provider new_id now (stasis_start c) calls =
    on_stasis_start provider (device_of config) new_id now c calls
handle_ari_event config provider new_id now (channel_state_change channel state) calls =
    on_channel_state_change channel state calls
handle_ari_event config provider new_id now (stasis_end channel) calls = on_stasis_end channel calls
handle_ari_event config provider new_id now (channel_dtmf_received channel digit) calls =
    (calls, [])
handle_ari_event config provider new_id now other_event calls = (calls, [])

abbrev line_of : CellularEndpointConfig → Endpoint
line_of endpoint = record { address = or_default endpoint.phone_number ""; label = none }

abbrev pub dialled_call :
    ProviderId → String → String → CellularEndpointConfig → String → String → AriCall
dialled_call provider new_id now endpoint destination channel = record {
  call = record {
    id = new_id;
    provider = provider;
    direction = outbound;
    from = line_of endpoint;
    to = record { address = destination; label = none };
    state = dialing;
    started_at = now;
    ended_at = none;
    media_stream_url = none;
  };
  channel_id = channel;
}

abbrev pub simulated_call :
    ProviderId → String → String → CellularEndpointConfig → String → String → AriCall
simulated_call provider new_id now endpoint from channel = record {
  call = record {
    id = new_id;
    provider = provider;
    direction = inbound;
    from = record { address = from; label = none };
    to = line_of endpoint;
    state = ringing;
    started_at = now;
    ended_at = none;
    media_stream_url = none;
  };
  channel_id = channel;
}

module _ {V : Type 0} (provider : ProviderId) (new_id now : String)
    (endpoint : CellularEndpointConfig) (number : String) where
  -- `dial` from the server's answer on.
  unfoldable pub finish_dial :
      Result Failure (Option String) × AriClient V → Reply (AriClient V) CallSession
  finish_dial (err e, s) = record { result = err e; emitted = []; world = s }
  finish_dial (ok none, s) = record { result = err undefined_id; emitted = []; world = s }
  finish_dial (ok (some channel), s) =
      let c = dialled_call provider new_id now endpoint number channel in
      record {
        result = ok c.call;
        emitted = [];
        world = record s { calls = set c.call.id c s.calls };
      }

  -- `simulateIncomingCall` from the server's answer on.
  unfoldable pub finish_simulate :
      Result Failure (Option String) × AriClient V → Reply (AriClient V) CallSession
  finish_simulate (err e, s) = record { result = err e; emitted = []; world = s }
  finish_simulate (ok none, s) = record { result = err undefined_id; emitted = []; world = s }
  finish_simulate (ok (some channel), s) =
      let c = simulated_call provider new_id now endpoint number channel in
      record {
        result = ok c.call;
        emitted = call_incoming c.call ∷ [];
        world = record s { calls = set c.call.id c s.calls };
      }

is_device : String → String × String → Bool
is_device device (technology, resource) = (technology === "Mobile") && (resource === device)

device_status : Bool → String → VoiceProviderStatus
device_status true device = record {
  available = true;
  detail = some ("chan_mobile device \"" +++ device +++ "\" reported by ARI");
}
device_status false device = record {
  available = false;
  detail = some (
      "chan_mobile device \"" +++ device
      +++ "\" not found in ARI /endpoints — status reporting for this tech is best-effort and unverified");
}

-- What the listing of the server's endpoints, by technology and resource, says of the device.
listed_status :
    (Failure → String) → String → Result Failure (List (String × String)) → VoiceProviderStatus
unfolding is_device device_status
listed_status message device (ok endpoints) =
    device_status (is_some (find (is_device device) endpoints)) device
listed_status message device (err e) = record {
  available = false;
  detail = some ("status check failed: " +++ message e);
}

-- `getStatus`. A simulated provider goes by its socket.
unfoldable pub get_status :
    AsteriskChanMobileConfig
    → (Failure → String)
    → Bool
    → Result Failure (List (String × String))
    → VoiceProviderStatus
unfolding listed_status
get_status config message socket_open listing =
    if config.simulated
    then record {
      available = socket_open;
      detail =
          some
            "SIMULATED Asterisk ARI/Local channel — Bluetooth HFP and cellular carrier are not validated";
    }
    else listed_status message config.chan_mobile_device listing

module _ {V : Type 0} (serve : AriRequest → V → Result Failure (Option String) × V)
    (config : AsteriskChanMobileConfig) (fill : String → String → String) where
  abbrev channel_for : String → String
  channel_for destination = elim config.channel_template [
    | some template ↦ fill template destination
    | none ↦ "Mobile/" +++ config.chan_mobile_device +++ "/" +++ destination
  ]

  module _ (new_id now : String) where
    unfoldable pub dial :
        ProviderId → CellularEndpointConfig → String → AriClient V → Reply (AriClient V) CallSession
    unfolding ari_request finish_dial
    dial provider endpoint destination s =
        finish_dial provider new_id now endpoint destination
          (ari_request serve (originate (channel_for destination) config.app_name none none) s)

    unfoldable pub simulate_incoming_call :
        ProviderId → CellularEndpointConfig → String → AriClient V → Reply (AriClient V) CallSession
    unfolding ari_request finish_simulate
    simulate_incoming_call provider endpoint from s =
        if config.simulated
        then finish_simulate provider new_id now endpoint from (
            ari_request serve
              (originate "Local/inbound@sim-cellular" config.app_name none (some from)) s)
        else record {
          result =
              err (
                provider_error "Inbound simulation is disabled for this real chan_mobile provider");
          emitted = [];
          world = s;
        }

    -- What the registry sees of it.
    unfoldable pub chan_mobile_provider :
        (Failure → String)
        → (V → Bool)
        → (V → Result Failure (List (String × String)))
        → ProviderId
        → CellularVoiceProvider (AriClient V)
    unfolding dial simulate_incoming_call on_call get_status
    chan_mobile_provider message socket_open listing name = record {
      id = name;
      dial = dial name;
      answer = λ call_id. on_call serve call_id (λ c. answer_channel c.channel_id);
      hangup = λ call_id. on_call serve call_id (λ c. delete_channel c.channel_id);
      get_status =
          λ endpoint s. get_status config message (socket_open s.server) (listing s.server);
      simulate_incoming_call = some (simulate_incoming_call name);
    }

  unfoldable pub set_hold : String → Bool → AriClient V → Reply (AriClient V) (Unit {0})
  unfolding on_call
  set_hold call_id on = on_call serve call_id (λ c. hold_channel c.channel_id on)

  unfoldable pub set_mute : String → Bool → AriClient V → Reply (AriClient V) (Unit {0})
  unfolding on_call
  set_mute call_id on = on_call serve call_id (λ c. mute_channel c.channel_id on)

  unfoldable pub transfer_call : String → Endpoint → AriClient V → Reply (AriClient V) (Unit {0})
  unfolding on_call
  transfer_call call_id to =
      on_call serve call_id (λ c. redirect_channel c.channel_id ("Mobile/" +++ to.address))

  unfoldable pub send_dtmf_digits : String → String → AriClient V → Reply (AriClient V) (Unit {0})
  unfolding on_call
  send_dtmf_digits call_id digits =
      on_call serve call_id (λ c. send_channel_dtmf c.channel_id digits)

  -- `startMediaBridge`, whose format has a default, and `stopMediaBridge`.
  unfoldable pub start_media_bridge :
      String → String → Option String → AriClient V → Result Failure MediaBridgeHandle × AriClient V
  start_media_bridge call_id external_host format s =
      Requests.start_media_bridge serve config.app_name call_id external_host
        (or_default format "ulaw") s

  unfoldable pub stop_media_bridge : MediaBridgeHandle → AriClient V → AriClient V
  stop_media_bridge handle s = Requests.stop_media_bridge serve handle s
