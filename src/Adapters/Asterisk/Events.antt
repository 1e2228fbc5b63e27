-- ===== src/Adapters/Asterisk/Events.antt =====
-- The events that the adapter handles, against the automaton of one channel.
use textbee_gateway.Prelude.{◌≡◌, refl, String, none, []}
use textbee_gateway.JsMap.{get}
use textbee_gateway.Core.Types.{ProviderId}
use textbee_gateway.Ari.{
  AriEvent, stasis_start, channel_state_change, channel_dtmf_received, stasis_end, other_event,
  inbound_call, is_call, map_ari_state,
}
use textbee_gateway.Ari.Channels.{IsApart}
use textbee_gateway.Ari.Refinement.{
  Calls, Effect, start_effect, state_effect, dtmf_effect, end_effect, HasEffect,
  on_stasis_start-HasEffect, on_channel_state_change-HasEffect, on_channel_dtmf_received-HasEffect,
  on_stasis_end-HasEffect,
}
use textbee_gateway.Adapters.Asterisk.{handle_ari_event, callee_of}

-- The channel of an event, and the effect on it.
abbrev pub event_channel : AriEvent → String
event_channel (stasis_start c) = c.id
event_channel (channel_state_change ch state) = ch
event_channel (channel_dtmf_received ch digit) = ch
event_channel (stasis_end ch) = ch
event_channel other_event = ""

abbrev pub event_effect : ProviderId → String → String → AriEvent → Effect
event_effect provider new_id now (stasis_start c) =
    start_effect (is_call c) (inbound_call provider (callee_of c) new_id now c)
event_effect provider new_id now (channel_state_change ch state) =
    state_effect (map_ari_state state)
event_effect provider new_id now (channel_dtmf_received ch digit) = dtmf_effect digit
event_effect provider new_id now (stasis_end ch) = end_effect
event_effect provider new_id now other_event = λ known. (known, [])

-- An event, on calls that are apart and with an identifier that none of them has: the call of the
-- event's channel and what is emitted are as the automaton of one channel says, every other channel
-- keeps its call, and the calls are apart again.
pub handle_ari_event-HasEffect :
    (provider : ProviderId) (new_id now : String) (e : AriEvent) (calls : Calls)
    → IsApart calls
    → get new_id calls ≡ none
    → HasEffect
        (event_channel e)
        (event_effect provider new_id now e)
        calls
        (handle_ari_event provider new_id now e calls)
unfolding handle_ari_event
handle_ari_event-HasEffect provider new_id now (stasis_start c) calls w f =
    on_stasis_start-HasEffect provider (callee_of c) new_id now c calls f w
handle_ari_event-HasEffect provider new_id now (channel_state_change ch state) calls w f =
    on_channel_state_change-HasEffect ch state calls w
handle_ari_event-HasEffect provider new_id now (channel_dtmf_received ch digit) calls w f =
    on_channel_dtmf_received-HasEffect ch digit calls w
handle_ari_event-HasEffect provider new_id now (stasis_end ch) calls w f =
    on_stasis_end-HasEffect ch calls w
handle_ari_event-HasEffect provider new_id now other_event calls w f = record {
  own = refl;
  emitted = refl;
  others = λ other d. refl;
  apart = w;
}
