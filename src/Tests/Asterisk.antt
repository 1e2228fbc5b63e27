-- ===== src/Tests/Asterisk.antt =====
-- Tests of the events of src/adapters/asterisk-ari-adapter.ts and
-- src/cellular/asterisk-chan-mobile-provider.ts.
use mathlib.Core.Option.{none-ne-some}
use textbee_gateway.Prelude.{ℕ, ◌≡◌, ◌≢◌, refl, text_ne, true, String, none, some, [], ◌∷◌, ok}
use textbee_gateway.JsMap.{get, set}
use textbee_gateway.Core.Types.{Endpoint, call_incoming, call_state_changed, call_ended}
use textbee_gateway.Core.Session.{Manager, DialOptions}
use textbee_gateway.Core.Session.Events.{handle_all}
use textbee_gateway.Persistence.Types.{PersistenceStore}
use textbee_gateway.Persistence.Memory.{MemoryStore, empty}
use textbee_gateway.Persistence.Memory.Laws.{memory_store}
use textbee_gateway.Ari.{
  AriCall, AriChannel, stasis_start, channel_state_change, stasis_end, inbound_call, is_call,
  map_ari_state, find_by_channel,
}
use textbee_gateway.Ari.Channels.{IsApart}
use textbee_gateway.Ari.Refinement.{Calls, HasEffect, end_effect}
use textbee_gateway.Ari.Requests.{AriClient}
use textbee_gateway.Adapters.Asterisk.{handle_ari_event, callee_of, finish_dial, outbound_call}
use textbee_gateway.Adapters.Asterisk.Events.{handle_ari_event-HasEffect}
use textbee_gateway.Adapters.Asterisk.Follows.{IsFollowed, handle_ari_event-IsFollowed}
use textbee_gateway.Adapters.Asterisk.Races.{dial_race}
use textbee_gateway.Cellular.Types.{CellularEndpointConfig}
use textbee_gateway.Cellular.ChanMobile.{
  AsteriskChanMobileConfig, simulated_call, finish_simulate, device_of,
}
use textbee_gateway.Cellular.ChanMobile
use textbee_gateway.Cellular.ChanMobile.Events.{simulated_orders}

abbrev channel : AriChannel
channel = record {
  id = "c1";
  name = some "PJSIP/trunk-1";
  unicastrtp_local_address = none;
  caller_number = some "+15550001111";
  dialplan_exten = some "100";
}

abbrev media_channel : AriChannel
media_channel = record channel { id = "x1"; name = some "UnicastRTP/127.0.0.1-1" }

abbrev first : AriCall
first = inbound_call "pbx" (callee_of channel) "call_1" "noon" channel

abbrev pub one_call : Calls
one_call = ("call_1", first) ∷ []

one_call_opened :
    handle_ari_event "pbx" "call_1" "noon" (stasis_start channel) []
    ≡ (one_call, call_incoming first.call ∷ [])
unfolding handle_ari_event is_call find_by_channel set
one_call_opened = refl

media_is_no_call : handle_ari_event "pbx" "call_1" "noon" (stasis_start media_channel) [] ≡ ([], [])
unfolding handle_ari_event is_call
media_is_no_call = refl

handle_ari_event-HasEffect_example :
    HasEffect "c1" end_effect one_call
      (handle_ari_event "pbx" "call_2" "noon" (stasis_end "c1") one_call)
unfolding get
handle_ari_event-HasEffect_example =
    handle_ari_event-HasEffect "pbx" "call_2" "noon" (stasis_end "c1") one_call (refl, tt, tt) refl

abbrev Memory : Type 0
Memory = MemoryStore (Unit {0})

abbrev store : PersistenceStore Memory
store = memory_store (Unit {0})

abbrev now : ℕ → String
now n = "noon"

-- A core on the store's bus without calls.
abbrev manager : Manager Memory (Unit {0})
manager = record {
  adapters = [];
  routing = [];
  calls = [];
  messages = [];
  listeners = [];
  store = record empty { subscribers = ("events", 7 ∷ []) ∷ [] };
  handler = 7;
  pending = [];
  notices = [];
  readings = 0;
}

abbrev core_told : Manager Memory (Unit {0})
core_told = handle_all store now "pbx" (call_incoming first.call ∷ []) manager

first-IsFollowed : IsApart one_call × IsFollowed store now one_call core_told
unfolding get handle_ari_event is_call find_by_channel set
first-IsFollowed =
    handle_ari_event-IsFollowed store now "pbx" "call_1" "noon" (stasis_start channel) [] manager tt
      refl (λ ch c e. absurd (none-ne-some c e))

handle_ari_event-IsFollowed_example :
    let (calls, told) =
      handle_ari_event "pbx" "call_2" "noon" (channel_state_change "c1" "Up") one_call in
    IsApart calls × IsFollowed store now calls (handle_all store now "pbx" told core_told)
unfolding get
handle_ari_event-IsFollowed_example =
    handle_ari_event-IsFollowed store now "pbx" "call_2" "noon" (channel_state_change "c1" "Up")
      one_call core_told first-IsFollowed.0 refl first-IsFollowed.1

abbrev no_options : DialOptions
no_options = record { from = none; attach_media_stream_url = none }

abbrev callee : Endpoint
callee = record { address = "+15550002222"; label = none }

abbrev client : AriClient (Unit {0})
client = record { calls = []; server = tt }

abbrev id_1 : String
id_1 = "call_1"

abbrev id_2 : String
id_2 = "call_2"

distinct : id_1 ≢ id_2
distinct = text_ne id_1 id_2 refl

dial_race_example :
    let (calls1, told1) = handle_ari_event "pbx" "call_2" "noon" (stasis_start channel) [] in
    let dialled =
      finish_dial "pbx" "call_1" "noon" callee no_options
        (ok (some "c1"), record client { calls = calls1 }) in
    let (calls2, told2) =
      handle_ari_event "pbx" "" "noon" (channel_state_change "c1" "Up") dialled.world.calls in
    let (calls3, told3) = handle_ari_event "pbx" "" "noon" (stasis_end "c1") calls2 in
    let new = outbound_call "pbx" "call_1" "noon" callee no_options "c1" in
    (told1
      ≡ call_incoming (inbound_call "pbx" (callee_of channel) "call_2" "noon" channel).call ∷ [])
    × (dialled.result ≡ ok new.call)
    × (told2 ≡ call_state_changed "call_2" (map_ari_state "Up") ∷ [])
    × (told3 ≡ call_ended "call_2" none ∷ [])
    × (get "call_1" calls3 ≡ some new)
unfolding get is_call find_by_channel
dial_race_example =
    dial_race "pbx" "call_1" "call_2" "noon" "noon" "Up" callee no_options channel client tt refl
      refl refl refl distinct

abbrev line : CellularEndpointConfig
line = record {
  id = "desk";
  phone_number = some "+15550003333";
  line_number_status = none;
  capabilities = [];
  messaging = none;
  voice = some "mobile";
}

abbrev config : AsteriskChanMobileConfig
config = record {
  base_url = "http://pbx";
  username = "gw";
  password = "secret";
  app_name = "gw-mobile";
  chan_mobile_device = "mobile0";
  channel_template = none;
  simulated = true;
}

simulated_orders_example :
    let new = simulated_call "mobile" "call_1" "noon" line "+15550004444" "c1" in
    let answered =
      finish_simulate "mobile" "call_1" "noon" line "+15550004444" (ok (some "c1"), client) in
    let (calls1, told1) =
      ChanMobile.handle_ari_event config "mobile" "call_2" "noon" (stasis_start channel) [] in
    let late =
      finish_simulate "mobile" "call_1" "noon" line "+15550004444"
        (ok (some "c1"), record client { calls = calls1 }) in
    (answered.emitted ≡ call_incoming new.call ∷ [])
    × ((ChanMobile.handle_ari_event config "mobile" "call_2" "noon"
          (stasis_start channel)
          answered.world.calls).1
        ≡ [])
    × (told1
        ≡ call_incoming (inbound_call "mobile" (device_of config) "call_2" "noon" channel).call
          ∷ [])
    × (late.emitted ≡ call_incoming new.call ∷ [])
unfolding get is_call find_by_channel
simulated_orders_example =
    simulated_orders config "mobile" "call_1" "call_2" "noon" "noon" "+15550004444" line channel
      client refl refl refl
