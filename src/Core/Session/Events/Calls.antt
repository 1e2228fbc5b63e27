-- ===== src/Core/Session/Events/Calls.antt =====
-- Events of calls at the core: what the cache and the store have of a call after them.
use textbee_gateway.Prelude.{
  ℕ, ◌≡◌, ◌⊎◌, refl, ◌∙◌, arith, String, Option, some, List, [], ◌∷◌, map, foldl, ◌==◌, ===_refl,
  Bool-cases, inl, inr,
}
use textbee_gateway.JsMap.{get}
use textbee_gateway.JsMap.Laws.{get-set_self}
use textbee_gateway.Core.Types.{
  ProviderId, CallSession, CallState, ended, AdapterEvent, call_state_changed, call_ended,
}
use textbee_gateway.Core.Session.{Manager}
use textbee_gateway.Core.Session.Events.{
  end_call, change_call, apply_event_to_local_state, save_if, persist_event, on_bus_event, deliver,
  publish_event, handle_adapter_event, handle_all,
}
use textbee_gateway.Persistence.Types.{PersistenceStore, state_of}

-- What a provider reports of a call that is there.
pub data CallChange : Type 0 where
  moved : CallState → CallChange
  finished : Option String → CallChange

abbrev pub change_event : String → CallChange → AdapterEvent
change_event id (moved state) = call_state_changed id state
change_event id (finished reason) = call_ended id reason

abbrev pub state_after : CallState → CallChange → CallState
state_after s (moved state) = state
state_after s (finished reason) = ended

abbrev pub last_state : CallState → List CallChange → CallState
last_state = foldl state_after

-- The same call: what events leave alone.
pub record SameCall (c c' : CallSession) : Type 0 where
  pub id : c'.id ≡ c.id
  pub provider : c'.provider ≡ c.provider
  pub direction : c'.direction ≡ c.direction
  pub from : c'.from ≡ c.from
  pub to : c'.to ≡ c.to
  pub started_at : c'.started_at ≡ c.started_at
  pub media_stream_url : c'.media_stream_url ≡ c.media_stream_url

state_after_again :
    (s : CallState) (ch : CallChange) → state_after (state_after s ch) ch ≡ state_after s ch
state_after_again s (moved x) = refl
state_after_again s (finished x) = refl

-- The end of a call is what it was, or a reading of the clock.
abbrev pub IsEnd : (ℕ → String) → Option String → Option String → Type 0
IsEnd now before after = (after ≡ before) ⊎ ((n : ℕ) × (after ≡ some (now n)))

module _ {S W : Type 0} (store : PersistenceStore S) (now : ℕ → String) where
  -- The cache holds the call `c`, but for its state and its end, in a state that the store has too.
  pub record Tracks (m : Manager S W) (c : CallSession) (state : CallState) : Type 0 where
    pub call : CallSession
    pub cached : get c.id m.calls ≡ some call
    pub same : SameCall c call
    pub local : call.state ≡ state
    pub end : IsEnd now c.ended_at call.ended_at
    pub durable : state_of (store.get_call c.id m.store) ≡ some state

  -- As much of it as holds before the store is written.
  record Holds (m : Manager S W) (c : CallSession) (state : CallState) : Type 0 where
    call : CallSession
    cached : get c.id m.calls ≡ some call
    same : SameCall c call
    local : call.state ≡ state
    end : IsEnd now c.ended_at call.ended_at

  apply-Holds :
      (ch : CallChange) (m : Manager S W) (c : CallSession) {state : CallState}
      → Holds m c state
      → Holds
          (apply_event_to_local_state store now (change_event c.id ch) m)
          c
          (state_after state ch)
  unfolding apply_event_to_local_state
  apply-Holds (moved s) m c h =
      rw (h.cached, change_call)
        (record {
          call = record h.call { state = s };
          cached = get-set_self c.id (record h.call { state = s }) m.calls;
          same = record {
            id = h.same.id;
            provider = h.same.provider;
            direction = h.same.direction;
            from = h.same.from;
            to = h.same.to;
            started_at = h.same.started_at;
            media_stream_url = h.same.media_stream_url;
          };
          local = refl;
          end = h.end;
        })
  apply-Holds (finished reason) m c h =
      rw (h.cached, end_call)
        (record {
          call = record h.call { state = ended; ended_at = some (now m.readings) };
          cached =
              get-set_self c.id (record h.call { state = ended; ended_at = some (now m.readings) })
                m.calls;
          same = record {
            id = h.same.id;
            provider = h.same.provider;
            direction = h.same.direction;
            from = h.same.from;
            to = h.same.to;
            started_at = h.same.started_at;
            media_stream_url = h.same.media_stream_url;
          };
          local = refl;
          end = inr (m.readings, refl);
        })

  apply-store :
      (ch : CallChange) (id : String) (m : Manager S W)
      → (apply_event_to_local_state store now (change_event id ch) m).store ≡ m.store
  unfolding apply_event_to_local_state change_call end_call
  apply-store (moved s) id m = ground arith
  apply-store (finished reason) id m = ground arith

  save-Tracks :
      (m : Manager S W) (c : CallSession) {state : CallState}
      → Holds m c state
      → Tracks (save_if store now (get c.id m.calls) m) c state
  unfolding save_if
  save-Tracks m c h =
      rw (h.cached, save_if)
        (record {
          call = h.call;
          cached = h.cached;
          same = h.same;
          local = h.local;
          end = h.end;
          durable = rw (store.get_call-save_call, h.same.id, ===_refl, h.local);
        })

  persist-Tracks :
      (ch : CallChange) (m : Manager S W) (c : CallSession) {state : CallState}
      → Holds m c state
      → Tracks (persist_event store now (change_event c.id ch) m) c state
  persist-Tracks (moved s) m c h = unfold persist_event in save-Tracks m c h
  persist-Tracks (finished reason) m c h = unfold persist_event in save-Tracks m c h

  Tracks-Holds :
      {m : Manager S W} {c : CallSession} {state : CallState} → Tracks m c state → Holds m c state
  Tracks-Holds t = record {
    call = t.call;
    cached = t.cached;
    same = t.same;
    local = t.local;
    end = t.end;
  }

  on_bus_event-Tracks :
      (provider : ProviderId) (ch : CallChange) (m : Manager S W) (c : CallSession)
      {state : CallState}
      → state_after state ch ≡ state
      → Tracks m c state
      → Tracks (on_bus_event store now provider (change_event c.id ch) m) c state
  unfolding on_bus_event
  on_bus_event-Tracks provider ch m c e t =
      let h = apply-Holds ch m c (Tracks-Holds t) in
      record {
        call = h.call;
        cached = h.cached;
        same = h.same;
        local = h.local ∙ e;
        end = h.end;
        durable = rw (apply-store ch c.id m) t.durable;
      }

  deliver-Tracks :
      (provider : ProviderId) (ch : CallChange) (hs : List ℕ) (m : Manager S W) (c : CallSession)
      {state : CallState}
      → state_after state ch ≡ state
      → Tracks m c state
      → Tracks (deliver store now provider (change_event c.id ch) hs m) c state
  unfolding deliver
  deliver-Tracks provider ch [] m c e t = t
  deliver-Tracks provider ch (k ∷ hs) m c e t = elim (Bool-cases (k == m.handler)) [
    | inl own ↦
        rw own (deliver-Tracks provider ch hs _ c e (on_bus_event-Tracks provider ch m c e t))
    | inr other ↦ rw other (deliver-Tracks provider ch hs m c e t)
  ]

  handle_adapter_event-Tracks :
      (provider : ProviderId) (ch : CallChange) (m : Manager S W) (c : CallSession)
      {state : CallState}
      → Holds m c state
      → Tracks
          (handle_adapter_event store now provider (change_event c.id ch) m)
          c
          (state_after state ch)
  unfolding handle_adapter_event publish_event
  handle_adapter_event-Tracks provider ch m c {state} h =
      deliver-Tracks provider ch _ _ c (state_after_again state ch)
        (persist-Tracks ch _ c (apply-Holds ch m c h))

  -- A call that the core tracks, after any sequence of state changes and ends of it: the cache and
  -- the store have it in the state of the last one, and in the cache every other field is as it
  -- was, but for the end, which is as it was or a reading of the clock. (An end is
  -- no exception: a change of state that comes after it takes the call out of `ended` again.)
  pub handle_all-last_state :
      (provider : ProviderId) (chs : List CallChange) (m : Manager S W) (c : CallSession)
      (state : CallState)
      → Tracks m c state
      → Tracks
          (handle_all store now provider (map (change_event c.id) chs) m)
          c
          (last_state state chs)
  handle_all-last_state provider [] m c state t = t
  handle_all-last_state provider (ch ∷ chs) m c state t =
      handle_all-last_state provider chs
        (handle_adapter_event store now provider (change_event c.id ch) m) c (state_after state ch)
        (handle_adapter_event-Tracks provider ch m c (Tracks-Holds t))
