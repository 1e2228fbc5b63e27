-- ===== src/Media/Engine/Sessions.antt =====
-- Starting and stopping sessions, one after the other and at the same time.
use mathlib.Core.List.Memᴰ
use mathlib.Core.List.{Memᴰ}
use mathlib.Core.Option
use textbee_gateway.Prelude.{
  ℕ, ◌≡◌, ◌⊎◌, refl, ap, arith, Bool, true, false, none, some, String, List, [], ◌∷◌, Result, ok,
  err, Option-cases, inl, inr, ◌===◌, ===_iff, ===_refl, if◌then◌else◌,
}
use textbee_gateway.JsMap.{JsMap, get, set, keys}
use textbee_gateway.JsMap.Laws.{get-set, get-delete, get-set_self, get-keys}
use textbee_gateway.Media.Engine.{
  MediaEngine, MediaSession, MediaError, already_active, Randoms, fresh_session, begin_session,
  finish_session, start_session, stop_session, is_active, bind_available_port, finish_if, shutdown,
  stop_all,
}

-- A second start for a call that has a session is refused and changes nothing.
pub start_session_active :
    (free : ℕ → Bool) (connected : Bool) (r : Randoms) (call_id : String) (e : MediaEngine)
    → is_active call_id e ≡ true
    → start_session free connected r call_id e ≡ (err (already_active call_id), e)
unfolding start_session is_active
start_session_active free connected r call_id e h = rw h

-- What a start may have done to the sessions: nothing where it throws; where it returns a port,
-- the call has a new session on that port, and every other session is as it was.
abbrev pub Started :
    MediaEngine → Randoms → String → String → Result MediaError (String × ℕ) × MediaEngine → Type 0
Started e r call_id other (err x, e') = get other e'.sessions ≡ get other e.sessions
Started e r call_id other (ok (host, port), e') =
    get other e'.sessions
    ≡ (if call_id === other then some (fresh_session call_id port r) else get other e.sessions)

begin_session-sessions :
    (free : ℕ → Bool) (call_id : String) (e : MediaEngine)
    → (begin_session free call_id e).1.sessions ≡ e.sessions
unfolding begin_session
begin_session-sessions free call_id e = ground arith

finish_if-Started :
    (connected : Bool) (r : Randoms) (call_id other : String) (e : MediaEngine)
    (begun : Result MediaError ℕ × MediaEngine)
    → begun.1.sessions ≡ e.sessions
    → Started e r call_id other (finish_if connected r call_id begun)
unfolding finish_if
finish_if-Started connected r call_id other e (err x, e') h = ap (get other) h
finish_if-Started false r call_id other e (ok port, e') h = ap (get other) h
finish_if-Started true r call_id other e (ok port, e') h =
    rw (← h) (get-set call_id other (fresh_session call_id port r) e'.sessions)

-- A start that throws leaves every session as it was. One that returns a port gives the call a new
-- session on it, and leaves the session of every other call as it was.
pub start_session-Started :
    (free : ℕ → Bool) (connected : Bool) (r : Randoms) (call_id : String) (e : MediaEngine)
    (other : String)
    → Started e r call_id other (start_session free connected r call_id e)
unfolding start_session
start_session-Started free connected r call_id e other =
    finish_if-Started connected r call_id other e (begin_session free call_id e)
      (begin_session-sessions free call_id e)

-- Stopping closes the socket of the call's session, if it has one, and ends that session alone.
pub stop_session_lem :
    (call_id : String) (e : MediaEngine) (other : String)
    → ((stop_session call_id e).0 ≡ Option.map (λ s. s.local_port) (get call_id e.sessions))
      × (get other (stop_session call_id e).1.sessions
          ≡ (if call_id === other then none else get other e.sessions))
unfolding stop_session
stop_session_lem call_id e other = elim (Option-cases (get call_id e.sessions)) [
  | inl absent ↦ (
    rw (absent, stop_session) refl,
    rw (absent, stop_session) (ground (arith, ===_iff call_id other)),
  )
  | inr (s, present) ↦ (
    rw (present, stop_session) refl,
    rw (present, stop_session) (get-delete call_id other e.sessions),
  )
]

stop_session-none :
    (call_id other : String) (e : MediaEngine)
    → get other e.sessions ≡ none
    → get other (stop_session call_id e).1.sessions ≡ none
stop_session-none call_id other e h = ground (arith, (stop_session_lem call_id e other).1)

stop_all-none :
    (call_ids : List String) (other : String) (e : MediaEngine)
    → (get other e.sessions ≡ none) ⊎ Memᴰ other call_ids
    → get other (stop_all call_ids e).1.sessions ≡ none
unfolding stop_all
stop_all-none [] other e (inl h) = h
stop_all-none [] other e (inr m) = absurd (Memᴰ.not-nil m)
stop_all-none (c ∷ cs) other e (inl h) =
    stop_all-none cs other (stop_session c e).1 (inl (stop_session-none c other e h))
stop_all-none (c ∷ cs) other e (inr m) = elim (Memᴰ.cases_cons m) [
  | inl here ↦
      stop_all-none cs other (stop_session c e).1
        (inl (rw ((stop_session_lem c e other).1, here, ===_refl)))
  | inr later ↦ stop_all-none cs other (stop_session c e).1 (inr later)
]

-- After a shutdown no call has a session.
pub shutdown-idle : (e : MediaEngine) (call_id : String) → is_active call_id (shutdown e).1 ≡ false
unfolding shutdown is_active
shutdown-idle e call_id = elim (Option-cases (get call_id e.sessions)) [
  | inl absent ↦ rw (stop_all-none (keys e.sessions) call_id e (inl absent))
  | inr (s, present) ↦
      rw (stop_all-none (keys e.sessions) call_id e (inr (get-keys call_id e.sessions s present)))
]

begin_session_idle :
    (free : ℕ → Bool) (call_id : String) (e : MediaEngine) {p : ℕ}
    → is_active call_id e ≡ false
    → (bind_available_port free e).0 ≡ some p
    → begin_session free call_id e ≡ (ok p, (bind_available_port free e).1)
unfolding begin_session is_active bind_available_port
begin_session_idle free call_id e idle bound = rw (idle, bound)

stop_session_fresh :
    (call_id : String) (s : MediaSession) (e : MediaEngine) (m : JsMap MediaSession)
    → e.sessions ≡ set call_id s m
    → ((stop_session call_id e).0 ≡ some s.local_port)
      × (is_active call_id (stop_session call_id e).1 ≡ false)
unfolding is_active
stop_session_fresh call_id s e m at =
    let found : get call_id e.sessions ≡ some s = rw at (get-set_self call_id s m) in
    let (closed, left) = stop_session_lem call_id e call_id in
    (rw closed (rw found), rw left (rw ===_refl))

-- Two sessions for one call, one set after the other: stopping closes the second one's socket.
finished_twice :
    (r r' : Randoms) (call_id : String) (p p' : ℕ) (e : MediaEngine)
    → let (started, e1) = finish_session true r call_id p e in
      let (started', e2) = finish_session true r' call_id p' e1 in
      let (closed, e3) = stop_session call_id e2 in
      (started ≡ ok (e.local_host, p))
      × (started' ≡ ok (e.local_host, p'))
      × (closed ≡ some p')
      × (is_active call_id e3 ≡ false)
unfolding finish_session
finished_twice r r' call_id p p' e =
    let stopped =
      stop_session_fresh call_id (fresh_session call_id p' r')
        (finish_session true r' call_id p' (finish_session true r call_id p e).1).1 _ refl in
    (refl, refl, stopped.0, stopped.1)

-- Two starts of one call, of which the second begins before the provider of the first is connected.
-- Both return a port, and whichever provider connects last, only that one's port is ever closed:
-- the session that `stopSession` finds is that one, and after it the call has none.
pub overlapping_starts :
    (free free' : ℕ → Bool) (r r' : Randoms) (call_id : String) (e : MediaEngine) {p p' : ℕ}
    → is_active call_id e ≡ false
    → (bind_available_port free e).0 ≡ some p
    → (bind_available_port free' (bind_available_port free e).1).0 ≡ some p'
    → let (begun, e1) = begin_session free call_id e in
      let (begun', e2) = begin_session free' call_id e1 in
      let (started, e3) = finish_session true r call_id p e2 in
      let (started', e4) = finish_session true r' call_id p' e3 in
      let (closed, e5) = stop_session call_id e4 in
      let (late', f3) = finish_session true r' call_id p' e2 in
      let (late, f4) = finish_session true r call_id p f3 in
      let (shut, f5) = stop_session call_id f4 in
      (begun ≡ ok p)
      × (begun' ≡ ok p')
      × ((started ≡ ok (e2.local_host, p))
          × (started' ≡ ok (e2.local_host, p'))
          × (closed ≡ some p')
          × (is_active call_id e5 ≡ false))
      × ((late' ≡ ok (e2.local_host, p'))
          × (late ≡ ok (e2.local_host, p))
          × (shut ≡ some p)
          × (is_active call_id f5 ≡ false))
overlapping_starts free free' r r' call_id e {p} {p'} idle bound bound' =
    let first = begin_session_idle free call_id e idle bound in
    let e1 = (bind_available_port free e).1 in
    let second =
      begin_session_idle free' call_id e1 (unfold is_active bind_available_port in idle) bound' in
    rw (first, second)
      (
        refl,
        refl,
        finished_twice r r' call_id p p' (bind_available_port free' e1).1,
        finished_twice r' r call_id p' p (bind_available_port free' e1).1,
      )
