-- ===== src/Tests/Cellular.antt =====
-- Tests of src/cellular.
use textbee_gateway.Prelude.{
  inr, ℕ, ◌≡◌, refl, String, true, false, none, some, List, [], ◌∷◌, Result, ok, err, All,
}
use textbee_gateway.JsMap.{get, set, values}
use textbee_gateway.Core.Types.{Endpoint, CallSession, voice, sms, dialing, outbound}
use textbee_gateway.Core.Phone.{Text}
use textbee_gateway.Core.Session.{Manager}
use textbee_gateway.Persistence.Types.{PersistenceStore}
use textbee_gateway.Persistence.Memory.{MemoryStore, empty}
use textbee_gateway.Persistence.Memory.Laws.{memory_store}
use textbee_gateway.Cellular.Types.{CellularEndpointConfig, CellularVoiceProvider, unverified}
use textbee_gateway.Cellular.Registry.{
  CellularEndpointRegistry, ResolvedCellularEndpoint, CellularError, from_config, make_call,
  simulate_incoming_call, send_cellular_message, unknown_voice_provider, get_status, degraded,
  not_found, reported, normalized_endpoint, add_endpoint, must_get, overall_of,
}
use textbee_gateway.Cellular.Registry.Laws.{IsResolved, from_config-AllResolved, unfit_line_refused}
use textbee_gateway.Cellular.Stub.{StubCellularVoiceProvider}

-- Every text reads as one number and is written back as another.
abbrev units : String → Text
units s = []

abbrev text : Text → String
text s = "+14155550100"

abbrev same_text : Text → Text
same_text s = s

abbrev call : CallSession
call = record {
  id = "call_1";
  provider = "stub";
  direction = outbound;
  from = record { address = "+14155550100"; label = none };
  to = record { address = "you"; label = none };
  state = dialing;
  started_at = "noon";
  ended_at = none;
  media_stream_url = none;
}

abbrev provider : CellularVoiceProvider ℕ
provider = record {
  id = "stub";
  dial = λ config to w. record { result = ok call; emitted = []; world = 1 };
  answer = λ id w. record { result = ok tt; emitted = []; world = w };
  hangup = λ id w. record { result = ok tt; emitted = []; world = w };
  get_status = λ config w. record { available = true; detail = none };
  simulate_incoming_call = none;
}

abbrev line : CellularEndpointConfig
line = record {
  id = "desk";
  phone_number = none;
  line_number_status = some unverified;
  capabilities = sms ∷ voice ∷ [];
  messaging = some "phone";
  voice = some "stub";
}

abbrev resolved : ResolvedCellularEndpoint ℕ
resolved = record { config = line; voice_provider = some provider }

abbrev registry : CellularEndpointRegistry ℕ
registry = record { endpoints = ("desk", resolved) ∷ []; voice_providers = ("stub", provider) ∷ [] }

configured :
    from_config units text same_text (line ∷ []) (ok ("stub", provider) ∷ [])
    ≡ ok (registry, line ∷ [])
unfolding from_config normalized_endpoint add_endpoint get set
configured = refl

from_config-AllResolved_example :
    All (IsResolved registry.voice_providers) (values registry.endpoints)
from_config-AllResolved_example =
    from_config-AllResolved units text same_text (line ∷ []) (line ∷ [])
      (ok ("stub", provider) ∷ []) registry configured

abbrev no_providers : List (Result CellularError (String × CellularVoiceProvider ℕ))
no_providers = []

without_provider :
    from_config units text same_text (line ∷ []) no_providers
    ≡ err (unknown_voice_provider "desk" "stub")
unfolding from_config normalized_endpoint add_endpoint get set
without_provider = refl

abbrev store : PersistenceStore (MemoryStore (Unit {0}))
store = memory_store (Unit {0})

abbrev now : ℕ → String
now n = "noon"

abbrev manager : Manager (MemoryStore (Unit {0})) ℕ
manager = record {
  adapters = [];
  routing = [];
  calls = [];
  messages = [];
  listeners = [];
  store = empty;
  handler = 0;
  pending = [];
  notices = [];
  readings = 0;
}

abbrev you : Endpoint
you = record { address = "you"; label = none }

unfit_line_refused_example :
    ((y : CellularError) × (make_call units text same_text "desk" "you" registry 0 ≡ err y))
    × ((y : CellularError) × (simulate_incoming_call units text same_text "desk" "you" registry 0
          ≡ err y))
    × ((y : CellularError) × (send_cellular_message units text same_text store now "desk" you
            "hello" none registry manager 0
          ≡ err y))
unfit_line_refused_example =
    unfit_line_refused units text same_text store now "desk" "you" "hello" you none registry
      resolved manager 0 (unfold get in refl) (inr (inr refl))

voice_alone :
    get_status units text same_text "desk" registry manager 0
    ≡ ok (record {
      endpoint_id = "desk";
      phone_number = none;
      capabilities = sms ∷ voice ∷ [];
      line_number_status = unverified;
      overall = degraded;
      messaging = record { available = false; provider = some "phone"; detail = not_found "phone" };
      voice = record { available = true; provider = some "stub"; detail = reported "" };
    })
unfolding get_status must_get get overall_of
voice_alone = refl

abbrev stub : StubCellularVoiceProvider
stub = record { id = "stub"; calls = [] }
