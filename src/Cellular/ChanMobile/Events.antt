-- ===== src/Cellular/ChanMobile/Events.antt =====
-- A simulated incoming call and the event of its channel's start, in both orders.
use textbee_gateway.Prelude.{some, ◌≡◌, refl, String, none, [], ◌∷◌, ok, true, ===_refl}
use textbee_gateway.JsMap.{get, set}
use textbee_gateway.Core.Types.{ProviderId, call_incoming}
use textbee_gateway.Cellular.Types.{CellularEndpointConfig}
use textbee_gateway.Ari.{AriChannel, stasis_start, is_call, inbound_call, find_by_channel}
use textbee_gateway.Ari.Channels.{find_by_channel-set_new}
use textbee_gateway.Ari.Refinement.{on_stasis_start_new, on_stasis_start_known}
use textbee_gateway.Ari.Requests.{AriClient}
use textbee_gateway.Cellular.ChanMobile.{
  AsteriskChanMobileConfig, device_of, handle_ari_event, finish_simulate, simulated_call,
}

-- A simulated call whose channel is new to the provider. Where the server's answer is handled before
-- the event of the channel's start, one incoming call is reported; where the event comes first, two
-- are, under two identifiers, for the one channel.
pub simulated_orders :
    {V : Type 0} (config : AsteriskChanMobileConfig) (provider : ProviderId)
    (id id' now now' from : String) (endpoint : CellularEndpointConfig) (c : AriChannel)
    (s : AriClient V)
    → is_call c ≡ true
    → find_by_channel c.id s.calls ≡ none
    → get id s.calls ≡ none
    → let new = simulated_call provider id now endpoint from c.id in
      let answered = finish_simulate provider id now endpoint from (ok (some c.id), s) in
      let (calls1, told1) = handle_ari_event config provider id' now' (stasis_start c) s.calls in
      let late =
        finish_simulate provider id now endpoint from
          (ok (some c.id), record s { calls = calls1 }) in
      (answered.emitted ≡ call_incoming new.call ∷ [])
      × ((handle_ari_event config provider id' now' (stasis_start c) answered.world.calls).1 ≡ [])
      × (told1 ≡ call_incoming (inbound_call provider (device_of config) id' now' c).call ∷ [])
      × (late.emitted ≡ call_incoming new.call ∷ [])
unfolding handle_ari_event finish_simulate
simulated_orders config provider id id' now now' from endpoint c s call absent fresh =
    let new = simulated_call provider id now endpoint from c.id in
    (
      refl,
      rw (
          on_stasis_start_known provider (device_of config) id' now' c (set id new s.calls)
            {known = new}
            (rw (find_by_channel-set_new c.id id new s.calls fresh, absent, ===_refl))),
      rw (on_stasis_start_new provider (device_of config) id' now' c s.calls call absent),
      refl,
    )
