-- ===== src/Adapters/Asterisk/Races.antt =====
-- The event of a channel's start that comes before the answer to the request that made the channel.
use textbee_gateway.Prelude.{◌≡◌, ◌≢◌, refl, sym, String, none, some, [], ◌∷◌, ok, ===_refl, true}
use textbee_gateway.JsMap.{get, set}
use textbee_gateway.JsMap.Laws.{get-set_self, get-set_ne, get-delete_ne, set-set_ne}
use textbee_gateway.Core.Types.{ProviderId, Endpoint, call_incoming, call_state_changed, call_ended}
use textbee_gateway.Core.Session.{DialOptions}
use textbee_gateway.Ari.{
  AriChannel, stasis_start, channel_state_change, stasis_end, find_by_channel, is_call,
  inbound_call, in_state, map_ari_state,
}
use textbee_gateway.Ari.Channels.{find_by_channel-set_new, find_by_channel-set_old, IsApart}
use textbee_gateway.Ari.Channels.Keep.{set_new-IsApart}
use textbee_gateway.Ari.Refinement.{
  on_stasis_start_new, on_channel_state_change_known, on_stasis_end_known,
}
use textbee_gateway.Ari.Requests.{AriClient}
use textbee_gateway.Adapters.Asterisk.{handle_ari_event, finish_dial, outbound_call, callee_of}

-- A call is dialled, and the start of its channel is handled before the answer to the request: the
-- adapter reports an incoming call, of another identifier, and it is that call which the channel's
-- state and end are reported of. The call that `dial` returned is kept as it is, without an end,
-- after the channel has ended.
pub dial_race :
    {V : Type 0} (provider : ProviderId) (id id' now now' state : String) (to : Endpoint)
    (opts : DialOptions) (c : AriChannel) (s : AriClient V)
    → IsApart s.calls
    → is_call c ≡ true
    → find_by_channel c.id s.calls ≡ none
    → get id s.calls ≡ none
    → get id' s.calls ≡ none
    → id ≢ id'
    → let (calls1, told1) = handle_ari_event provider id' now' (stasis_start c) s.calls in
      let dialled =
        finish_dial provider id now to opts (ok (some c.id), record s { calls = calls1 }) in
      let (calls2, told2) =
        handle_ari_event provider "" now' (channel_state_change c.id state) dialled.world.calls in
      let (calls3, told3) = handle_ari_event provider "" now' (stasis_end c.id) calls2 in
      let new = outbound_call provider id now to opts c.id in
      (told1 ≡ call_incoming (inbound_call provider (callee_of c) id' now' c).call ∷ [])
      × (dialled.result ≡ ok new.call)
      × (told2 ≡ call_state_changed id' (map_ari_state state) ∷ [])
      × (told3 ≡ call_ended id' none ∷ [])
      × (get id calls3 ≡ some new)
unfolding handle_ari_event finish_dial
dial_race provider id id' now now' state to opts c s w call absent fresh fresh' differ =
    let id'_id = λ (e : id' ≡ id). differ (sym e) in
    let inc = inbound_call provider (callee_of c) id' now' c in
    let moved = in_state (map_ari_state state) inc in
    let new = outbound_call provider id now to opts c.id in
    let calls1 = set id' inc s.calls in
    let found1 : find_by_channel c.id calls1 ≡ some inc =
      rw (find_by_channel-set_new c.id id' inc s.calls fresh', absent, ===_refl) in
    let free : get id calls1 ≡ none = rw (get-set_ne id' id inc s.calls id'_id) fresh in
    let found2 : find_by_channel c.id (set id new calls1) ≡ some inc =
      rw (find_by_channel-set_new c.id id new calls1 free, found1) in
    let swap : set id' moved (set id new calls1) ≡ set id new (set id' moved calls1) =
      set-set_ne id' id moved new calls1 id'_id (get-set_self id' inc s.calls) in
    let free' : get id (set id' moved calls1) ≡ none =
      rw (get-set_ne id' id moved calls1 id'_id) free in
    let kept : find_by_channel c.id (set id' moved calls1) ≡ some moved = rw (
      find_by_channel-set_old c.id c.id inc moved calls1
          (set_new-IsApart inc s.calls fresh' absent w) found1 refl,
      ===_refl,
    ) in
    let found3 : find_by_channel c.id (set id' moved (set id new calls1)) ≡ some moved =
      rw (swap, find_by_channel-set_new c.id id new (set id' moved calls1) free', kept) in
    rw
      (
        on_stasis_start_new provider (callee_of c) id' now' c s.calls call absent,
        on_channel_state_change_known c.id state (set id new calls1) found2,
        on_stasis_end_known c.id (set id' moved (set id new calls1)) found3,
      )
      (
        refl,
        refl,
        refl,
        refl,
        rw (
          get-delete_ne id' id (set id' moved (set id new calls1)) id'_id,
          get-set_ne id' id moved (set id new calls1) id'_id,
          get-set_self id new calls1,
        ),
      )
