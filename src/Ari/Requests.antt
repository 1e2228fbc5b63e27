-- ===== src/Ari/Requests.antt =====
-- The requests of an Asterisk client, their texts, and the operations that are made of them. The
-- server is `serve`, a parameter: it answers a request with the identifier in its reply, with `none`
-- where the reply is empty, which `ariRequest` takes for `undefined`, or with the failure that
-- `ariRequest` throws. A reply on a bridge or a channel that is not empty has its identifier, as the
-- interface of Asterisk documents. `encode` is encodeURIComponent.
pub mod Bridges
use Prim.Native.String
use textbee_gateway.Prelude.{
  ◌+++◌, Bool, String, Option, none, some, List, [], ◌∷◌, Result, ok, err, or_throw, ◌===◌,
  if◌then◌else◌,
}
use textbee_gateway.JsMap.{JsMap, get}
use textbee_gateway.Core.Types.{Endpoint}
use textbee_gateway.Core.Session.{Failure, unknown_call, provider_error, Reply}
use textbee_gateway.Media.Capabilities.{MediaBridgeHandle}
use textbee_gateway.Ari.{AriCall}

pub data AriRequest : Type 0 where
  originate : String → String → Option String → Option String → AriRequest
  answer_channel : String → AriRequest
  delete_channel : String → AriRequest
  hold_channel : String → Bool → AriRequest
  mute_channel : String → Bool → AriRequest
  redirect_channel : String → String → AriRequest
  send_channel_dtmf : String → String → AriRequest
  record_channel : String → String → AriRequest
  create_bridge : AriRequest
  external_media : String → String → String → AriRequest
  add_channel : String → String → AriRequest
  delete_bridge : String → AriRequest

pub data Method : Type 0 where
  post delete : Method

unfoldable pub request_method : AriRequest → Method
request_method (hold_channel channel on) = if on then post else delete
request_method (mute_channel channel on) = if on then post else delete
request_method (delete_channel channel) = delete
request_method (delete_bridge bridge) = delete
request_method _ = post

unfoldable pub request_path : (String → String) → AriRequest → String
request_path encode (originate endpoint app context caller_id) = "/channels"
request_path encode (answer_channel channel) = "/channels/" +++ channel +++ "/answer"
request_path encode (delete_channel channel) = "/channels/" +++ channel
request_path encode (hold_channel channel on) = "/channels/" +++ channel +++ "/hold"
request_path encode (mute_channel channel on) = "/channels/" +++ channel +++ "/mute?direction=both"
request_path encode (redirect_channel channel endpoint) =
    "/channels/" +++ channel +++ "/redirect?endpoint=" +++ endpoint
request_path encode (send_channel_dtmf channel digits) =
    "/channels/" +++ channel +++ "/dtmf?dtmf=" +++ encode digits
request_path encode (record_channel channel name) = "/channels/" +++ channel +++ "/record"
request_path encode create_bridge = "/bridges"
request_path encode (external_media app host format) =
    "/channels/externalMedia?app="
    +++ encode app
    +++ "&external_host="
    +++ encode host
    +++ "&format="
    +++ encode format
request_path encode (add_channel bridge channel) =
    "/bridges/" +++ bridge +++ "/addChannel?channel=" +++ channel
request_path encode (delete_bridge bridge) = "/bridges/" +++ bridge

-- A client: its calls, and the server behind it.
pub record AriClient (V : Type 0) : Type 0 where
  pub calls : JsMap AriCall
  pub server : V

unfoldable pub must_get : {V : Type 0} → String → AriClient V → Result Failure AriCall
must_get call_id s = or_throw (unknown_call call_id) (get call_id s.calls)

-- The TypeError of `reply.id` where the reply was empty.
abbrev pub undefined_id : Failure
undefined_id = provider_error "Cannot read properties of undefined (reading 'id')"

module _ {V : Type 0} (serve : AriRequest → V → Result Failure (Option String) × V) where
  -- `ariRequest`
  unfoldable pub ari_request :
      AriRequest → AriClient V → Result Failure (Option String) × AriClient V
  ari_request r s = let (answer, v) = serve r s.server in (answer, record s { server = v })

  done : Result Failure (Option String) × AriClient V → Reply (AriClient V) (Unit {0})
  done (err e, s) = record { result = err e; emitted = []; world = s }
  done (ok id, s) = record { result = ok tt; emitted = []; world = s }

  request_for :
      Result Failure AriCall → (AriCall → AriRequest) → AriClient V → Reply (AriClient V) (Unit {0})
  unfolding done ari_request
  request_for (err e) request s = record { result = err e; emitted = []; world = s }
  request_for (ok c) request s = done (ari_request (request c) s)

  -- One request on the channel of a call.
  unfoldable pub on_call :
      String → (AriCall → AriRequest) → AriClient V → Reply (AriClient V) (Unit {0})
  unfolding must_get request_for
  on_call call_id request s = request_for (must_get call_id s) request s

  delete_if_named : Option String → AriClient V → AriClient V
  unfolding ari_request
  delete_if_named none s = s
  delete_if_named (some channel) s =
      if channel === "" then s else (ari_request (delete_channel channel) s).1

  -- What a failed start takes back; failures of that are passed over. Without a bridge the reading
  -- of its identifier throws again.
  rolled_back :
      Option String
      → Option String
      → Failure
      → AriClient V
      → Result Failure MediaBridgeHandle × AriClient V
  unfolding ari_request delete_if_named
  rolled_back none channel e s = (err undefined_id, delete_if_named channel s)
  rolled_back (some bridge) channel e s =
      (err e, (ari_request (delete_bridge bridge) (delete_if_named channel s)).1)

  media_added :
      String
      → String
      → Result Failure (Option String) × AriClient V
      → Result Failure MediaBridgeHandle × AriClient V
  unfolding rolled_back
  media_added bridge channel (err e, s) = rolled_back (some bridge) (some channel) e s
  media_added bridge channel (ok id, s) =
      (ok (record { bridge_id = bridge; external_channel_id = channel }), s)

  call_added :
      String
      → Option String
      → Result Failure (Option String) × AriClient V
      → Result Failure MediaBridgeHandle × AriClient V
  unfolding rolled_back media_added ari_request
  call_added bridge channel (err e, s) = rolled_back (some bridge) channel e s
  call_added bridge none (ok id, s) = rolled_back (some bridge) none undefined_id s
  call_added bridge (some channel) (ok id, s) =
      media_added bridge channel (ari_request (add_channel bridge channel) s)

  media_made :
      AriCall
      → Option String
      → Result Failure (Option String) × AriClient V
      → Result Failure MediaBridgeHandle × AriClient V
  unfolding rolled_back call_added ari_request
  media_made c bridge (err e, s) = rolled_back bridge none e s
  media_made c none (ok channel, s) = rolled_back none channel undefined_id s
  media_made c (some bridge) (ok channel, s) =
      call_added bridge channel (ari_request (add_channel bridge c.channel_id) s)

  bridge_made :
      String
      → String
      → String
      → AriCall
      → Result Failure (Option String) × AriClient V
      → Result Failure MediaBridgeHandle × AriClient V
  unfolding media_made ari_request
  bridge_made app host format c (err e, s) = (err e, s)
  bridge_made app host format c (ok bridge, s) =
      media_made c bridge (ari_request (external_media app host format) s)

  bridge_for :
      String
      → String
      → String
      → Result Failure AriCall
      → AriClient V
      → Result Failure MediaBridgeHandle × AriClient V
  unfolding bridge_made ari_request
  bridge_for app host format (err e) s = (err e, s)
  bridge_for app host format (ok c) s = bridge_made app host format c (ari_request create_bridge s)

  -- `startMediaBridge`, for a client of the Stasis application `app`.
  unfoldable pub start_media_bridge :
      String
      → String
      → String
      → String
      → AriClient V
      → Result Failure MediaBridgeHandle × AriClient V
  unfolding must_get bridge_for
  start_media_bridge app call_id host format s = bridge_for app host format (must_get call_id s) s

  -- `stopMediaBridge`, which throws nothing.
  unfoldable pub stop_media_bridge : MediaBridgeHandle → AriClient V → AriClient V
  unfolding ari_request
  stop_media_bridge handle s =
      (ari_request (delete_bridge handle.bridge_id)
        (ari_request (delete_channel handle.external_channel_id) s).1).1
