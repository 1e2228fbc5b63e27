-- ===== src/Mcp/Sessions.antt =====
-- What a start of a voice session leaves behind where its bridge fails, and what a stop leaves.
use textbee_gateway.Prelude.{
  ℕ, ◌≡◌, refl, Bool, true, false, String, Option, none, some, Result, ok, err, Bool-cases, inl,
  inr, ===_refl,
}
use textbee_gateway.JsMap.{get}
use textbee_gateway.JsMap.Laws.{get-delete}
use textbee_gateway.Core.Types.{ProviderId, CallSession}
use textbee_gateway.Media.Capabilities.{MediaBridgeHandle}
use textbee_gateway.Media.Engine.{MediaEngine, MediaError, Randoms, start_session, is_active}
use textbee_gateway.Media.Engine.Sessions.{Started, start_session-Started, stop_session_lem}
use textbee_gateway.Mcp.{
  VoiceSessions, bridge_failed, session_active, start_voice_session, stop_voice_session, bridging,
  media_of, begin_media, with_media, bridged, bridge_stops,
}

-- A start of media that returned has made a session of the call.
started_active :
    (call_id : String) (e : MediaEngine) (r : Randoms) {address : String × ℕ}
    (o : Result MediaError (String × ℕ) × MediaEngine)
    → Started e r call_id call_id o
    → o.0 ≡ ok address
    → is_active call_id o.1 ≡ true
unfolding is_active
started_active call_id e r (err x, media) h k = cc
started_active call_id e r (ok (host, port), media) h k = rw (h, ===_refl call_id)

with_media_fails :
    (call_id : String) (s : VoiceSessions) (start : String → String × ℕ → Option MediaBridgeHandle)
    {address : String × ℕ} (o : Result MediaError (String × ℕ) × MediaEngine)
    → o.0 ≡ ok address
    → start call_id address ≡ none
    → with_media call_id s start o ≡ (err bridge_failed, record s { media = o.1 })
unfolding with_media
with_media_fails call_id s start (err x, media) h none_made = cc
with_media_fails call_id s start {address} (ok a, media) h none_made =
    let fails : start call_id a ≡ none = cc (h, none_made) in rw (fails, bridged)

module _ {P : Type 0} (call : String → Option CallSession) (provider_by_id : ProviderId → Option P)
    (start_bridge : P → Option (String → String × ℕ → Option MediaBridgeHandle))
    (stop_bridge : P → Option (MediaBridgeHandle → Bool)) where
  bridging_found :
      (call_id : String) {c : CallSession} {p : P}
      {start : String → String × ℕ → Option MediaBridgeHandle}
      → call call_id ≡ some c
      → provider_by_id c.provider ≡ some p
      → start_bridge p ≡ some start
      → bridging call provider_by_id start_bridge stop_bridge call_id ≡ ok start
  unfolding bridging media_of
  bridging_found call_id found provider media = rw (found, provider, media)

  -- Where the call has a session every start is refused, and changes nothing.
  refused_while_active :
      (free : ℕ → Bool) (connects : Bool) (r : Randoms) (call_id : String) (s : VoiceSessions)
      {start : String → String × ℕ → Option MediaBridgeHandle}
      → bridging call provider_by_id start_bridge stop_bridge call_id ≡ ok start
      → is_active call_id s.media ≡ true
      → start_voice_session call provider_by_id start_bridge stop_bridge free connects r call_id s
        ≡ (err (session_active call_id), s)
  unfolding start_voice_session
  refused_while_active free connects r call_id s found active = rw (found, begin_media, active)

  -- A start whose media session comes about and whose bridge fails throws, and the media session
  -- stays: every further start for the call is refused as one that has a session.
  pub failed_start_lingers :
      (free free' : ℕ → Bool) (connects connects' : Bool) (r r' : Randoms) (call_id : String)
      (s : VoiceSessions) {c : CallSession} {p : P}
      {start : String → String × ℕ → Option MediaBridgeHandle} {address : String × ℕ}
      → call call_id ≡ some c
      → provider_by_id c.provider ≡ some p
      → start_bridge p ≡ some start
      → is_active call_id s.media ≡ false
      → (start_session free connects r call_id s.media).0 ≡ ok address
      → start call_id address ≡ none
      → let (result, s') =
          start_voice_session call provider_by_id start_bridge stop_bridge free connects r call_id
            s in
        (result ≡ err bridge_failed)
        × (is_active call_id s'.media ≡ true)
        × (start_voice_session call provider_by_id start_bridge stop_bridge free' connects' r'
              call_id s'
            ≡ (err (session_active call_id), s'))
  failed_start_lingers free free' connects connects' r r' call_id s {start = start} found provider
        media idle begun fails =
      let bridge_found = bridging_found call_id found provider media in
      let lingering : VoiceSessions = record s {
        media = (start_session free connects r call_id s.media).1;
      } in
      let outcome : start_voice_session call provider_by_id start_bridge stop_bridge free connects r
            call_id s
          ≡ (err bridge_failed, lingering) =
        unfold start_voice_session in
        rw (bridge_found, begin_media, idle) (with_media_fails call_id s start _ begun fails) in
      let active : is_active call_id lingering.media ≡ true =
        started_active call_id s.media r _
          (start_session-Started free connects r call_id s.media call_id) begun in
      rw outcome (
        refl,
        active,
        refused_while_active free' connects' r' call_id lingering bridge_found active,
      )

  -- After a stop the call has no media session, even where the provider throws; where it does not,
  -- the call has no bridge either.
  pub stop_voice_session-closes :
      (call_id : String) (s : VoiceSessions)
      → let (result, s') =
          stop_voice_session call provider_by_id start_bridge stop_bridge call_id s in
        (is_active call_id s'.media ≡ false)
        × (result ≡ ok tt → get call_id s'.active_bridges ≡ none)
  unfolding stop_voice_session is_active
  stop_voice_session-closes call_id s =
      let stopped = (stop_session_lem call_id s.media call_id).1 in
      elim (Bool-cases (
        bridge_stops call provider_by_id start_bridge stop_bridge (get call_id s.active_bridges)
          (call call_id))) [
            | inl yes' ↦ rw yes' (rw (stopped, ===_refl), λ e. rw (get-delete, ===_refl))
            | inr throws ↦ rw throws (rw (stopped, ===_refl), λ e. cc)
          ]
