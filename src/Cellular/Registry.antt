-- ===== src/Cellular/Registry.antt =====
-- src/cellular/endpoint-registry.ts. A text is read as code units by `units` and written back by
-- `text`. The texts of a status stand as the cases of `Detail`. What the factory and `init` give for
-- a voice provider is an argument, and `from_config` gives the configurations that it hands to the
-- store for keeping, whose failures are only logged.
pub mod Laws
use textbee_gateway.Prelude.{
  ℕ, Bool, true, false, ◌&&◌, ◌||◌, String, Option, none, some, List, [], ◌∷◌, Result, ok, err,
  or_throw, or_default, is_some, map, find, ◌===◌, if◌then◌else◌, ◌>>=◌,
}
use mathlib.Core.Option
use textbee_gateway.JsMap.{JsMap, get, set, values}
use textbee_gateway.Core.Types.{ProviderId, Endpoint, CallSession, ChannelKind, MessageRecord}
use textbee_gateway.Core.Phone.{Text, PhoneError, normalize_phone_number}
use textbee_gateway.Core.Session.{Manager, Reply, Failure}
use textbee_gateway.Core.Session.Operations.{Outcome, send_message}
use textbee_gateway.Persistence.Types.{PersistenceStore}
use textbee_gateway.Cellular.Types.{
  LineNumberStatus, unverified, CellularEndpointConfig, VoiceProviderStatus, CellularVoiceProvider,
}

pub record ResolvedCellularEndpoint (W : Type 0) : Type 0 where
  pub config : CellularEndpointConfig
  pub voice_provider : Option (CellularVoiceProvider W)

pub record CellularEndpointRegistry (W : Type 0) : Type 0 where
  pub endpoints : JsMap (ResolvedCellularEndpoint W)
  pub voice_providers : JsMap (CellularVoiceProvider W)

pub data CellularError : Type 0 where
  unknown_endpoint : String → CellularError
  unknown_voice_provider : String → ProviderId → CellularError
  no_voice_provider : String → CellularError
  no_messaging_provider : String → CellularError
  line_number_not_verified : String → CellularError
  not_simulated : String → CellularError
  invalid_number : PhoneError → CellularError
  provider_not_started : String → CellularError

pub data Detail : Type 0 where
  not_configured : Detail
  instantiated : ProviderId → Detail
  not_found : ProviderId → Detail
  reported : String → Detail

pub data Overall : Type 0 where
  online degraded offline : Overall

pub record ChannelStatus : Type 0 where
  pub available : Bool
  pub provider : Option ProviderId
  pub detail : Detail

pub record EndpointStatus : Type 0 where
  pub endpoint_id : String
  pub phone_number : Option String
  pub capabilities : List ChannelKind
  pub line_number_status : LineNumberStatus
  pub overall : Overall
  pub messaging : ChannelStatus
  pub voice : ChannelStatus

unfoldable pub overall_of : Bool → Bool → Overall
overall_of voice messaging =
    if voice && messaging then online else if voice || messaging then degraded else offline

is_unverified : Option LineNumberStatus → Bool
is_unverified (some unverified) = true
is_unverified _ = false

-- `!endpoint.phoneNumber || endpoint.lineNumberStatus === "unverified"`
unfoldable pub require_line_number : CellularEndpointConfig → Result CellularError String
unfolding is_unverified
require_line_number c = elim c.phone_number [
  | none ↦ err (line_number_not_verified c.id)
  | some n ↦
      if (n === "") || is_unverified c.line_number_status
      then err (line_number_not_verified c.id)
      else ok n
]

serves : ProviderId → CellularEndpointConfig → Bool
serves id c = elim c.messaging [
  | some p ↦ (p === id) || elim c.voice [ some v ↦ v === id | none ↦ false ]
  | none ↦ elim c.voice [ some v ↦ v === id | none ↦ false ]
]

number_error : {A : Type 0} → Result PhoneError A → Result CellularError A
number_error (ok a) = ok a
number_error (err e) = err (invalid_number e)

module _ (units : String → Text) (text : Text → String) (to_lower_case : Text → Text) where
  -- `normalizePhoneNumber(input)`
  unfoldable pub normalized : String → Result CellularError String
  unfolding number_error
  normalized input = do
    number ← number_error (normalize_phone_number to_lower_case (b'1' ∷ []) (units input))
    ok (text number)

  -- `if (ep.phoneNumber) ep.phoneNumber = normalizePhoneNumber(ep.phoneNumber)`
  unfoldable pub normalized_endpoint :
      CellularEndpointConfig → Result CellularError CellularEndpointConfig
  unfolding normalized
  normalized_endpoint ep = elim ep.phone_number [
    | none ↦ ok ep
    | some n ↦
        if n === ""
        then ok ep
        else do number ← normalized n; ok (record ep { phone_number = some number })
  ]

  module _ {W : Type 0} where
    -- The voice provider that an endpoint names has to be there.
    voice_of :
        String
        → Option ProviderId
        → CellularEndpointRegistry W
        → Result CellularError (Option (CellularVoiceProvider W))
    voice_of id none r = ok none
    voice_of id (some v) r = do
      provider ← or_throw (unknown_voice_provider id v) (get v r.voice_providers)
      ok (some provider)

    unfoldable pub add_endpoint :
        CellularEndpointConfig
        → CellularEndpointRegistry W
        → Result CellularError (CellularEndpointRegistry W × CellularEndpointConfig)
    unfolding normalized_endpoint voice_of
    add_endpoint ep r = do
      config ← normalized_endpoint ep
      provider ← voice_of config.id config.voice r
      ok (
        record r {
          endpoints =
              set config.id (record { config = config; voice_provider = provider }) r.endpoints;
        },
        config,
      )

    add_endpoints :
        List CellularEndpointConfig
        → CellularEndpointRegistry W
        → Result CellularError (CellularEndpointRegistry W × List CellularEndpointConfig)
    unfolding add_endpoint
    add_endpoints [] r = ok (r, [])
    add_endpoints (ep ∷ eps) r = do
      added ← add_endpoint ep r
      rest ← add_endpoints eps added.0
      ok (rest.0, added.1 ∷ rest.1)

    add_voice_providers :
        List (Result CellularError (String × CellularVoiceProvider W))
        → CellularEndpointRegistry W
        → Result CellularError (CellularEndpointRegistry W)
    add_voice_providers [] r = ok r
    add_voice_providers (err e ∷ rest) r = err e
    add_voice_providers (ok (id, provider) ∷ rest) r =
        add_voice_providers rest (record r { voice_providers = set id provider r.voice_providers })

    unfoldable pub from_config :
        List CellularEndpointConfig
        → List (Result CellularError (String × CellularVoiceProvider W))
        → Result CellularError (CellularEndpointRegistry W × List CellularEndpointConfig)
    unfolding add_endpoints add_voice_providers
    from_config endpoint_configs providers = do
      r ← add_voice_providers providers (record { endpoints = []; voice_providers = [] })
      add_endpoints endpoint_configs r

    unfoldable pub must_get :
        String → CellularEndpointRegistry W → Result CellularError (ResolvedCellularEndpoint W)
    must_get id r = or_throw (unknown_endpoint id) (get id r.endpoints)

    abbrev pub list : CellularEndpointRegistry W → List CellularEndpointConfig
    list r = map (λ e. e.config) (values r.endpoints)

    abbrev pub get_voice_provider_by_id :
        ProviderId → CellularEndpointRegistry W → Option (CellularVoiceProvider W)
    get_voice_provider_by_id id r = get id r.voice_providers

    unfoldable pub make_call :
        String
        → String
        → CellularEndpointRegistry W
        → W
        → Result CellularError (Reply W CallSession)
    unfolding must_get normalized
    make_call endpoint_id destination r w = do
      resolved ← must_get endpoint_id r
      provider ← or_throw (no_voice_provider endpoint_id) resolved.voice_provider
      line ← require_line_number resolved.config
      number ← normalized destination
      ok (provider.dial resolved.config number w)

    unfoldable pub simulate_incoming_call :
        String
        → String
        → CellularEndpointRegistry W
        → W
        → Result CellularError (Reply W CallSession)
    unfolding must_get normalized
    simulate_incoming_call endpoint_id from r w = do
      resolved ← must_get endpoint_id r
      line ← require_line_number resolved.config
      provider ← or_throw (not_simulated endpoint_id) resolved.voice_provider
      simulate ← or_throw (not_simulated endpoint_id) provider.simulate_incoming_call
      number ← normalized from
      ok (simulate resolved.config number w)

    unfoldable pub find_endpoint_by_provider :
        ProviderId → CellularEndpointRegistry W → Option CellularEndpointConfig
    unfolding serves
    find_endpoint_by_provider id r =
        Option.map (λ e. e.config) (find (λ e. serves id e.config) (values r.endpoints))

    module _ {S : Type 0} (store : PersistenceStore S) (now : ℕ → String) where
      unfoldable pub send_cellular_message :
          String
          → Endpoint
          → String
          → Option (List String)
          → CellularEndpointRegistry W
          → Manager S W
          → W
          → Result CellularError (Outcome S W MessageRecord)
      unfolding must_get normalized
      send_cellular_message endpoint_id to body media_urls r m w = do
        resolved ← must_get endpoint_id r
        provider ← or_throw (no_messaging_provider endpoint_id) resolved.config.messaging
        line ← require_line_number resolved.config
        number ← normalized to.address
        ok (
            send_message store now (record to { address = number }) body
              (record {
                provider_id = some provider;
                options = record {
                  from = some (record { address = line; label = none });
                  media_urls = media_urls;
                };
              })
              m w)

    voice_status : ResolvedCellularEndpoint W → W → ChannelStatus
    voice_status e w = elim e.voice_provider [
      | none ↦ record { available = false; provider = e.config.voice; detail = not_configured }
      | some provider ↦ record {
        available = (provider.get_status e.config w).available;
        provider = e.config.voice;
        detail = reported (or_default (provider.get_status e.config w).detail "");
      }
    ]

    messaging_status : {S : Type 0} → ResolvedCellularEndpoint W → Manager S W → ChannelStatus
    messaging_status e m = elim e.config.messaging [
      | none ↦ record { available = false; provider = none; detail = not_configured }
      | some p ↦
          if is_some (get p m.adapters)
          then record { available = true; provider = some p; detail = instantiated p }
          else record { available = false; provider = some p; detail = not_found p }
    ]

    unfoldable pub get_status :
        {S : Type 0}
        → String
        → CellularEndpointRegistry W
        → Manager S W
        → W
        → Result CellularError EndpointStatus
    unfolding must_get voice_status messaging_status overall_of
    get_status endpoint_id r m w = do
      e ← must_get endpoint_id r
      ok (record {
        endpoint_id = endpoint_id;
        phone_number = e.config.phone_number;
        capabilities = e.config.capabilities;
        line_number_status = or_default e.config.line_number_status unverified;
        overall = overall_of (voice_status e w).available (messaging_status e m).available;
        messaging = messaging_status e m;
        voice = voice_status e w;
      })
