-- ===== src/Core/Session/Routing.antt =====
-- `resolveProvider` of src/core/session-manager.ts: the rule that it chooses.
pub mod Choice
use textbee_gateway.Prelude.{
  Bool, true, false, not, ◌&&◌, String, Option, none, some, List, [], ◌∷◌, find, select, ◌===◌,
  if◌then◌else◌,
}
use text.Mathlib.Text.{starts_with}
use textbee_gateway.Core.Types.{ChannelKind, voice, sms, mms, chat, RoutingRule}

unfoldable pub same_channel : ChannelKind → ChannelKind → Bool
same_channel voice voice = true
same_channel sms sms = true
same_channel mms mms = true
same_channel chat chat = true
same_channel _ _ = false

-- `r.match && r.match !== "*" && address.startsWith(r.match)`, where an empty text is false.
unfoldable pub prefix_matches : String → Option String → Bool
prefix_matches address none = false
prefix_matches address (some p) = not (p === "") && (not (p === "*") && starts_with address p)

unfoldable pub is_default : Option String → Bool
is_default none = false
is_default (some p) = p === "*"

-- `a ?? b`
abbrev pub or_else {ℓ} : {A : Type ℓ} → Option A → Option A → Option A
or_else none b = b
or_else (some a) b = some a

abbrev first {ℓ} : {A : Type ℓ} → List A → Option A
first [] = none
first (x ∷ xs) = some x

unfoldable pub choose_rule : List RoutingRule → ChannelKind → String → Option RoutingRule
unfolding same_channel prefix_matches is_default
choose_rule routing channel address =
    let candidates = select (λ r. same_channel r.channel channel) routing in
    or_else (find (λ r. prefix_matches address r.match) candidates)
      (or_else (find (λ r. is_default r.match) candidates) (first candidates))
