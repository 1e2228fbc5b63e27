-- ===== src/Ari/Requests/Bridges.antt =====
-- What a media bridge leaves at the server. The log of the requests and their answers is kept
-- beside the server, and `outstanding` reads off it what replies named as made and was not asked to
-- be deleted. What a server made and did not name in its reply is not in it.
use mathlib.Core.List.{foldl-append}
use textbee_gateway.Prelude.{
  ◌≡◌, refl, ◌∙◌, Bool, false, String, Option, none, some, List, [], ◌∷◌, ◌++◌, foldl, Result, ok,
  err, ◌===◌, ===_refl, if◌then◌else◌, Bool-cases, inl, inr,
}
use textbee_gateway.JsMap.{JsMap}
use textbee_gateway.Core.Session.{Failure}
use textbee_gateway.Media.Capabilities.{MediaBridgeHandle}
use textbee_gateway.Ari.{AriCall}
use textbee_gateway.Ari.Requests.{
  AriRequest, delete_channel, create_bridge, external_media, add_channel, delete_bridge, AriClient,
  ari_request, undefined_id, delete_if_named, rolled_back, media_added, call_added, media_made,
  bridge_made, bridge_for, start_media_bridge,
}

abbrev pub Exchange : Type 0
Exchange = AriRequest × Result Failure (Option String)

abbrev pub Log : Type 0
Log = List Exchange

-- A server that keeps a log.
abbrev pub logged :
    {V : Type 0}
    → (AriRequest → V → Result Failure (Option String) × V)
    → AriRequest
    → V × Log
    → Result Failure (Option String) × (V × Log)
logged serve r (v, log) = let (answer, v') = serve r v in (answer, (v', log ++ (r, answer) ∷ []))

pub data Resource : Type 0 where
  bridge channel : String → Resource

is_bridge : String → Resource → Bool
is_bridge id (bridge b) = b === id
is_bridge id (channel c) = false

is_channel : String → Resource → Bool
is_channel id (bridge b) = false
is_channel id (channel c) = c === id

-- The channel of an external medium, if the reply named it.
abbrev pub named : Option String → List Resource
named none = []
named (some id) = if id === "" then [] else channel id ∷ []

abbrev named_bridge : Option String → List Resource
named_bridge none = []
named_bridge (some id) = bridge id ∷ []

abbrev pub held : MediaBridgeHandle → List Resource
held h = bridge h.bridge_id ∷ named (some h.external_channel_id)

without : (Resource → Bool) → List Resource → List Resource
without p [] = []
without p (r ∷ rs) = let rest = without p rs in if p r then rest else r ∷ rest

after_exchange : List Resource → Exchange → List Resource
unfolding is_bridge is_channel without
after_exchange rs (create_bridge, ok id) = rs ++ named_bridge id
after_exchange rs (external_media app host format, ok id) = rs ++ named id
after_exchange rs (delete_bridge id, answer) = without (is_bridge id) rs
after_exchange rs (delete_channel id, answer) = without (is_channel id) rs
after_exchange rs other = rs

unfoldable pub outstanding : Log → List Resource
unfolding after_exchange
outstanding log = foldl after_exchange [] log

outstanding_none : outstanding [] ≡ []
unfolding outstanding
outstanding_none = refl

outstanding_next :
    (log : Log) (x : Exchange) → outstanding (log ++ x ∷ []) ≡ after_exchange (outstanding log) x
unfolding outstanding
outstanding_next log x = foldl-append after_exchange [] log (x ∷ [])

module _ {V : Type 0} (serve : AriRequest → V → Result Failure (Option String) × V) where
  -- What a start has to leave: nothing where it throws, and what its handle names where it returns.
  abbrev pub Leaves : Result Failure MediaBridgeHandle × AriClient (V × Log) → Type 0
  Leaves (err e, s) = outstanding s.server.1 ≡ []
  Leaves (ok h, s) = outstanding s.server.1 ≡ held h

  request-outstanding :
      (r : AriRequest) (s : AriClient (V × Log))
      → outstanding (ari_request (logged serve) r s).1.server.1
        ≡ after_exchange (outstanding s.server.1) (r, (ari_request (logged serve) r s).0)
  unfolding ari_request
  request-outstanding r s = outstanding_next s.server.1 _

  made_bridge : Result Failure (Option String) → List Resource
  made_bridge (err e) = []
  made_bridge (ok b) = named_bridge b

  made : Result Failure (Option String) → List Resource
  made (err e) = []
  made (ok x) = named x

  deleted_bridge :
      (b : String) (s : AriClient (V × Log))
      → outstanding s.server.1 ≡ bridge b ∷ []
      → outstanding (ari_request (logged serve) (delete_bridge b) s).1.server.1 ≡ []
  unfolding after_exchange is_bridge without
  deleted_bridge b s h = rw (request-outstanding, h, ===_refl b)

  delete_if_named-bridge :
      (b x : Option String) (s : AriClient (V × Log))
      → outstanding s.server.1 ≡ named_bridge b ++ named x
      → outstanding (delete_if_named (logged serve) x s).server.1 ≡ named_bridge b
  unfolding delete_if_named after_exchange is_channel without
  delete_if_named-bridge none none s h = h
  delete_if_named-bridge (some b) none s h = h
  delete_if_named-bridge none (some x) s h = elim (Bool-cases (x === "")) [
    | inl unnamed ↦ rw unnamed (rw unnamed at h)
    | inr is_named ↦ rw (is_named, request-outstanding, rw is_named at h, ===_refl x)
  ]
  delete_if_named-bridge (some b) (some x) s h = elim (Bool-cases (x === "")) [
    | inl unnamed ↦ rw unnamed (rw unnamed at h)
    | inr is_named ↦ rw (is_named, request-outstanding, rw is_named at h, ===_refl x)
  ]

  rolled_back-Leaves :
      (b x : Option String) (e : Failure) (s : AriClient (V × Log))
      → outstanding s.server.1 ≡ named_bridge b ++ named x
      → Leaves (rolled_back (logged serve) b x e s)
  unfolding rolled_back
  rolled_back-Leaves none x e s h = delete_if_named-bridge none x s h
  rolled_back-Leaves (some b) x e s h =
      deleted_bridge b (delete_if_named (logged serve) x s) (delete_if_named-bridge (some b) x s h)

  media_added-Leaves :
      (b x : String) (o : Result Failure (Option String) × AriClient (V × Log))
      → outstanding o.1.server.1 ≡ bridge b ∷ named (some x)
      → Leaves (media_added (logged serve) b x o)
  unfolding media_added
  media_added-Leaves b x (err e, s) h = rolled_back-Leaves (some b) (some x) e s h
  media_added-Leaves b x (ok id, s) h = h

  call_added-Leaves :
      (b : String) (x : Option String) (o : Result Failure (Option String) × AriClient (V × Log))
      → outstanding o.1.server.1 ≡ bridge b ∷ named x
      → Leaves (call_added (logged serve) b x o)
  unfolding call_added after_exchange
  call_added-Leaves b none (err e, s) h = rolled_back-Leaves (some b) none e s h
  call_added-Leaves b (some x) (err e, s) h = rolled_back-Leaves (some b) (some x) e s h
  call_added-Leaves b none (ok id, s) h = rolled_back-Leaves (some b) none undefined_id s h
  call_added-Leaves b (some x) (ok id, s) h =
      media_added-Leaves b x _ (request-outstanding (add_channel b x) s ∙ h)

  media_made-Leaves :
      (c : AriCall) (b : Option String) (o : Result Failure (Option String) × AriClient (V × Log))
      → outstanding o.1.server.1 ≡ named_bridge b ++ made o.0
      → Leaves (media_made (logged serve) c b o)
  unfolding media_made after_exchange made
  media_made-Leaves c none (err e, s) h = rolled_back-Leaves none none e s h
  media_made-Leaves c (some b) (err e, s) h = rolled_back-Leaves (some b) none e s h
  media_made-Leaves c none (ok x, s) h = rolled_back-Leaves none x undefined_id s h
  media_made-Leaves c (some b) (ok x, s) h =
      call_added-Leaves b x _ (request-outstanding (add_channel b c.channel_id) s ∙ h)

  media-after :
      (app host format : String) (b : Option String) (a : Result Failure (Option String))
      → after_exchange (named_bridge b) (external_media app host format, a)
        ≡ named_bridge b ++ made a
  unfolding after_exchange made
  media-after app host format none (err e) = refl
  media-after app host format (some b) (err e) = refl
  media-after app host format b (ok x) = refl

  bridge-after :
      (a : Result Failure (Option String)) → after_exchange [] (create_bridge, a) ≡ made_bridge a
  unfolding after_exchange made_bridge
  bridge-after (err e) = refl
  bridge-after (ok b) = refl

  bridge_made-Leaves :
      (app host format : String) (c : AriCall)
      (o : Result Failure (Option String) × AriClient (V × Log))
      → outstanding o.1.server.1 ≡ made_bridge o.0
      → Leaves (bridge_made (logged serve) app host format c o)
  unfolding bridge_made made_bridge
  bridge_made-Leaves app host format c (err e, s) h = h
  bridge_made-Leaves app host format c (ok b, s) h = media_made-Leaves c b _ (
      request-outstanding (external_media app host format) s
      ∙ rw h (media-after app host format b _))

  bridge_for-Leaves :
      (app host format : String) (c : Result Failure AriCall) (calls : JsMap AriCall) (v : V)
      → Leaves
          (bridge_for (logged serve) app host format c (record { calls = calls; server = (v, []) }))
  unfolding bridge_for
  bridge_for-Leaves app host format (err e) calls v = outstanding_none
  bridge_for-Leaves app host format (ok c) calls v = bridge_made-Leaves app host format c _ (
      request-outstanding create_bridge (record { calls = calls; server = (v, []) })
      ∙ rw outstanding_none (bridge-after (serve create_bridge v).0))

  -- A start of a media bridge from an empty log, whatever the server answers to each request, an
  -- empty reply included: where it throws, it has asked for the deletion of every bridge and channel
  -- that a reply named (an empty text does not name a channel); where it returns a handle, what the
  -- replies named and is not asked to be deleted is what the handle names.
  pub start_media_bridge-Leaves :
      (app call_id host format : String) (calls : JsMap AriCall) (v : V)
      → Leaves (
          start_media_bridge
            (logged serve)
            app
            call_id
            host
            format
            (record { calls = calls; server = (v, []) }))
  unfolding start_media_bridge
  start_media_bridge-Leaves app call_id host format calls v =
      bridge_for-Leaves app host format _ calls v
