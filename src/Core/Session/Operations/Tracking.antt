-- ===== src/Core/Session/Operations/Tracking.antt =====
-- What the operations of the core guarantee of the calls and messages that they return.
use textbee_gateway.Prelude.{ℕ, ◌≡◌, String, Option, none, some, Result, ok, err, ===_refl}
use textbee_gateway.JsMap.{get}
use textbee_gateway.JsMap.Laws.{get-set_self}
use textbee_gateway.Core.Types.{voice, ProviderId, Endpoint, CallSession, MessageRecord}
use textbee_gateway.Core.Session.{Manager, Adapter, Reply, Failure, DialOptions, SendMessageOptions}
use textbee_gateway.Core.Session.Operations.{
  Outcome, DialRequest, SendRequest, awaited, track_external_call, tracked, dial_with, dial_by,
  dial, provider_for, stored, send_with, send_by, send_message, message_kind,
}
use textbee_gateway.Persistence.Types.{PersistenceStore, state_of, status_of}

module _ {S W : Type 0} (store : PersistenceStore S) (now : ℕ → String) where
  -- A call that is returned is in the cache, and the store has its state.
  abbrev pub IsTracked : Outcome S W CallSession → Type 0
  IsTracked (err e, m, w) = Unit
  IsTracked (ok c, m, w) =
      (get c.id m.calls ≡ some c) × (state_of (store.get_call c.id m.store) ≡ some c.state)

  tracked-IsTracked : (o : Outcome S W CallSession) → IsTracked (tracked store now o)
  unfolding tracked track_external_call
  tracked-IsTracked (err e, m, w) = tt
  tracked-IsTracked (ok c, m, w) =
      (get-set_self c.id c m.calls, rw (store.get_call-save_call, ===_refl))

  dial_with-IsTracked :
      (f : Option (Endpoint → DialOptions → W → Reply W CallSession)) (id : ProviderId)
      (to : Endpoint) (options : DialOptions) (m : Manager S W) (w : W)
      → IsTracked (dial_with store now f id to options m w)
  unfolding dial_with
  dial_with-IsTracked none id to options m w = tt
  dial_with-IsTracked (some f) id to options m w =
      tracked-IsTracked (awaited store now id (f to options w) m)

  dial_by-IsTracked :
      (a : Result Failure (Adapter W)) (to : Endpoint) (options : DialOptions) (m : Manager S W)
      (w : W)
      → IsTracked (dial_by store now a to options m w)
  unfolding dial_by
  dial_by-IsTracked (err e) to options m w = tt
  dial_by-IsTracked (ok a) to options m w = dial_with-IsTracked a.dial a.id to options m w

  -- Whatever the provider does, and whatever it emits while it dials: a call that `dial` returns is
  -- in the cache under its identifier, and the store has it with its state.
  pub dial-IsTracked :
      (to : Endpoint) (request : DialRequest) (m : Manager S W) (w : W)
      → IsTracked (dial store now to request m w)
  unfolding dial
  dial-IsTracked to request m w =
      dial_by-IsTracked (provider_for request.provider_id voice to m) to request.options m w

  -- A message that is returned is in the cache exactly as it is returned, and the store has its
  -- state.
  abbrev pub IsStored : Outcome S W MessageRecord → Type 0
  IsStored (err e, m, w) = Unit
  IsStored (ok r, m, w) =
      (get r.id m.messages ≡ some r) × (status_of (store.get_message r.id m.store) ≡ some r.status)

  stored-IsStored : (o : Outcome S W MessageRecord) → IsStored (stored store now o)
  unfolding stored
  stored-IsStored (err e, m, w) = tt
  stored-IsStored (ok r, m, w) =
      (get-set_self r.id r m.messages, rw (store.get_message-save_message, ===_refl))

  send_with-IsStored :
      (f : Option (Endpoint → String → SendMessageOptions → W → Reply W MessageRecord))
      (id : ProviderId) (to : Endpoint) (body : String) (options : SendMessageOptions)
      (m : Manager S W) (w : W)
      → IsStored (send_with store now f id to body options m w)
  unfolding send_with
  send_with-IsStored none id to body options m w = tt
  send_with-IsStored (some f) id to body options m w =
      stored-IsStored (awaited store now id (f to body options w) m)

  send_by-IsStored :
      (a : Result Failure (Adapter W)) (to : Endpoint) (body : String)
      (options : SendMessageOptions) (m : Manager S W) (w : W)
      → IsStored (send_by store now a to body options m w)
  unfolding send_by
  send_by-IsStored (err e) to body options m w = tt
  send_by-IsStored (ok a) to body options m w =
      send_with-IsStored a.send_message a.id to body options m w

  -- A message that `sendMessage` returns is in the cache exactly as the provider gave it, and the
  -- store has it in that state, whatever was emitted meanwhile: a status that came for it before
  -- the provider had answered is overwritten.
  pub send_message-IsStored :
      (to : Endpoint) (body : String) (request : SendRequest) (m : Manager S W) (w : W)
      → IsStored (send_message store now to body request m w)
  unfolding send_message
  send_message-IsStored to body request m w =
      send_by-IsStored
        (provider_for request.provider_id (message_kind request.options.media_urls) to m) to body
        request.options m w
