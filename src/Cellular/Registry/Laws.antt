-- ===== src/Cellular/Registry/Laws.antt =====
-- What the configuration of phone lines guarantees, and which lines may not be used.
use textbee_gateway.Prelude.{
  ◌≡◌, ◌⊎◌, arith, refl, sym, ap, ◌∙◌, String, Option, none, some, List, [], ◌∷◌, Result, ok, err,
  ◌>>=◌, All, is_some, Option-cases, inl, inr, ℕ,
}
use mathlib.Core.Path.{subst}
use textbee_gateway.JsMap.{JsMap, get, set, values}
use textbee_gateway.JsMap.Laws.{values-set}
use textbee_gateway.Core.Types.{ProviderId, Endpoint}
use textbee_gateway.Core.Phone.{Text}
use textbee_gateway.Core.Session.{Manager}
use textbee_gateway.Persistence.Types.{PersistenceStore}
use textbee_gateway.Cellular.Types.{unverified, CellularEndpointConfig, CellularVoiceProvider}
use textbee_gateway.Cellular.Registry.{
  CellularEndpointRegistry, ResolvedCellularEndpoint, CellularError, is_unverified,
  line_number_not_verified, normalized_endpoint, voice_of, add_endpoint, add_endpoints,
  add_voice_providers, from_config, must_get, make_call, simulate_incoming_call,
  send_cellular_message, require_line_number, no_voice_provider, no_messaging_provider,
}

bind_inv :
    {E A B : Type 0} (x : Result E A) (f : A → Result E B) (b : B)
    → (x >>= f) ≡ ok b
    → (a : A) × (x ≡ ok a) × (f a ≡ ok b)
bind_inv (ok a) f b h = (a, refl, h)
bind_inv (err e) f b h = cc

-- The provider that there is under the name that a configuration gives.
abbrev pub named :
    {W : Type 0}
    → Option ProviderId
    → JsMap (CellularVoiceProvider W)
    → Option (CellularVoiceProvider W)
named none providers = none
named (some v) providers = get v providers

-- An endpoint has the voice provider that its configuration names, and has one if one is named.
pub record IsResolved {W : Type 0} (providers : JsMap (CellularVoiceProvider W))
    (e : ResolvedCellularEndpoint W) : Type 0 where
  pub provider : e.voice_provider ≡ named e.config.voice providers
  pub present : is_some e.voice_provider ≡ is_some e.config.voice

-- The number of a line is missing, or empty, or not verified.
abbrev pub IsUnfit : CellularEndpointConfig → Type 0
IsUnfit c =
    (c.phone_number ≡ none) ⊎ (c.phone_number ≡ some "") ⊎ (c.line_number_status ≡ some unverified)

require_line_number-refused :
    (c : CellularEndpointConfig)
    → IsUnfit c
    → require_line_number c ≡ err (line_number_not_verified c.id)
unfolding require_line_number is_unverified
require_line_number-refused c (inl missing) = rw missing
require_line_number-refused c (inr (inl blank)) = rw blank
require_line_number-refused c (inr (inr unverified')) = elim (Option-cases c.phone_number) [
  | inl missing ↦ rw missing
  | inr (n, present) ↦ rw (present, unverified') (ground arith)
]

module _ (units : String → Text) (text : Text → String) (to_lower_case : Text → Text)
    {W : Type 0} where
  voice_of_inv :
      (id : String) (voice : Option ProviderId) (r : CellularEndpointRegistry W)
      (p : Option (CellularVoiceProvider W))
      → voice_of units text to_lower_case id voice r ≡ ok p
      → (p ≡ named voice r.voice_providers) × (is_some p ≡ is_some voice)
  unfolding voice_of
  voice_of_inv id none r p h = (cc, cc)
  voice_of_inv id (some v) r p h = elim (Option-cases (get v r.voice_providers)) [
    | inl missing ↦ cc (rw missing at h)
    | inr (provider, found) ↦
        let same : some provider ≡ p = cc (rw found at h) in
        (sym same ∙ sym found, ap is_some (sym same))
  ]

  abbrev AllResolved : CellularEndpointRegistry W → Type 0
  AllResolved r = All (IsResolved r.voice_providers) (values r.endpoints)

  add_endpoint-AllResolved :
      (ep config : CellularEndpointConfig) (r r' : CellularEndpointRegistry W)
      → AllResolved r
      → add_endpoint units text to_lower_case ep r ≡ ok (r', config)
      → AllResolved r'
  unfolding add_endpoint
  add_endpoint-AllResolved ep config r r' all h =
      let (c, _, h') = bind_inv (normalized_endpoint units text to_lower_case ep) _ _ h in
      let (p, found, h'') = bind_inv (voice_of units text to_lower_case c.id c.voice r) _ _ h' in
      let e : ResolvedCellularEndpoint W = record { config = c; voice_provider = p } in
      let r1 : CellularEndpointRegistry W = record r { endpoints = set c.id e r.endpoints } in
      let same : r1 ≡ r' = cc h'' in
      let (provider, present) = voice_of_inv c.id c.voice r p found in
      subst AllResolved same (
        values-set (IsResolved r.voice_providers) c.id e r.endpoints
          (record { provider = provider; present = present }) all)

  add_endpoints-AllResolved :
      (eps saved : List CellularEndpointConfig) (r r' : CellularEndpointRegistry W)
      → AllResolved r
      → add_endpoints units text to_lower_case eps r ≡ ok (r', saved)
      → AllResolved r'
  unfolding add_endpoints
  add_endpoints-AllResolved [] saved r r' all h = subst AllResolved (cc h) all
  add_endpoints-AllResolved (ep ∷ eps) saved r r' all h =
      let (added, first, h') = bind_inv (add_endpoint units text to_lower_case ep r) _ _ h in
      let (rest, others, h'') =
        bind_inv (add_endpoints units text to_lower_case eps added.0) _ _ h' in
      let kept = add_endpoint-AllResolved ep added.1 r added.0 all first in
      subst AllResolved (cc h'') (add_endpoints-AllResolved eps rest.1 added.0 rest.0 kept others)

  add_voice_providers-empty :
      (providers : List (Result CellularError (String × CellularVoiceProvider W)))
      (r r' : CellularEndpointRegistry W)
      → r.endpoints ≡ []
      → add_voice_providers units text to_lower_case providers r ≡ ok r'
      → r'.endpoints ≡ []
  unfolding add_voice_providers
  add_voice_providers-empty [] r r' e h =
      let same : r ≡ r' = cc h in
      subst (λ (x : CellularEndpointRegistry W). x.endpoints ≡ []) same e
  add_voice_providers-empty (err x ∷ rest) r r' e h = cc
  add_voice_providers-empty (ok (id, provider) ∷ rest) r r' e h =
      add_voice_providers-empty rest
        (record r { voice_providers = set id provider r.voice_providers }) r' e h

  -- A registry that could be made of a configuration has for every endpoint the voice provider that
  -- it names, and none for an endpoint that names none.
  pub from_config-AllResolved :
      (endpoint_configs saved : List CellularEndpointConfig)
      (providers : List (Result CellularError (String × CellularVoiceProvider W)))
      (r : CellularEndpointRegistry W)
      → from_config units text to_lower_case endpoint_configs providers ≡ ok (r, saved)
      → All (IsResolved r.voice_providers) (values r.endpoints)
  unfolding from_config
  from_config-AllResolved endpoint_configs saved providers r h =
      let (r0, started, h') =
        bind_inv (add_voice_providers units text to_lower_case providers _) _ _ h in
      let none_yet = add_voice_providers-empty providers _ r0 refl started in
      add_endpoints-AllResolved endpoint_configs saved r0 r
        (subst (λ es. All (IsResolved r0.voice_providers) (values es)) (sym none_yet) tt) h'

  -- Through a line whose number is missing, empty or not verified nothing is dialled, simulated or
  -- sent: each of the three operations throws.
  pub unfit_line_refused :
      {S : Type 0} (store : PersistenceStore S) (now : ℕ → String) (id to body : String)
      (dest : Endpoint) (media_urls : Option (List String)) (r : CellularEndpointRegistry W)
      (e : ResolvedCellularEndpoint W) (m : Manager S W) (w : W)
      → get id r.endpoints ≡ some e
      → IsUnfit e.config
      → ((y : CellularError) × (make_call units text to_lower_case id to r w ≡ err y))
        × ((y : CellularError) × (simulate_incoming_call units text to_lower_case id to r w
              ≡ err y))
        × ((y : CellularError) × (send_cellular_message units text to_lower_case store now id dest
                body media_urls r m w
              ≡ err y))
  unfolding make_call simulate_incoming_call send_cellular_message must_get
  unfit_line_refused store now id to body dest media_urls r e m w found is_unfit =
      let x = line_number_not_verified e.config.id in
      let unfit = require_line_number-refused e.config is_unfit in
      (
        elim (Option-cases e.voice_provider) [
          | inl silent ↦ (no_voice_provider id, rw (found, silent))
          | inr (provider, there) ↦ (x, rw (found, there, unfit))
        ],
        (x, rw (found, unfit)),
        elim (Option-cases e.config.messaging) [
          | inl silent ↦ (no_messaging_provider id, rw (found, silent))
          | inr (provider, there) ↦ (x, rw (found, unfit, there))
        ],
      )
