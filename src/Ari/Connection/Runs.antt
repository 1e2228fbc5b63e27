-- ===== src/Ari/Connection/Runs.antt =====
-- Runs of the event socket: what the network, the timer and the program may do to it, in any order.
use textbee_gateway.Prelude.{
  ℕ, ◌+◌, ◌*◌, ◌≤◌, ◌≡◌, ◌≢◌, refl, ◌⊎◌, inl, inr, ◌∙◌, arith, true, false,
}
use textbee_gateway.Ari.Connection.{
  Socket, no_socket, connecting, connected, closing, closed, Connection, unconnected,
  connect_events, on_error, on_close, on_timer, shutdown,
}

-- A socket that connects may open, one that connects or is open may fail, and the library reports
-- an error of a socket once; one that is there may close. A timer that is set fires, and the program
-- may stop.
abbrev IsLive : Socket → Type 0
IsLive s = (s ≡ connecting) ⊎ (s ≡ connected)

pub data Step : Connection → Connection → Type 0 where
  opens : (c : Connection) → c.socket ≡ connecting → Step c (record c { socket = connected })
  fails : (c : Connection) → IsLive c.socket → Step c (on_error c)
  closes : (c : Connection) → c.socket ≢ no_socket → Step c (on_close c)
  fires : (c : Connection) → c.reconnect_timer ≡ true → Step c (on_timer c)
  stops : (c : Connection) → Step c (shutdown c)

pub data Run (c : Connection) : Connection → Type 0 where
  here : Run c c
  next : {d e : Connection} → Run c d → Step d e → Run c e

-- There is a socket, or else a timer is set, and never both; with `stopping` no
-- timer is set and no socket is open or about to be.
abbrev pub IsSteady : Connection → Type 0
IsSteady c =
    (c.stopping ≡ true
      → (c.reconnect_timer ≡ false) × (c.socket ≢ connected) × (c.socket ≢ connecting))
    × (c.stopping ≡ false
        → ((c.socket ≢ no_socket) × (c.reconnect_timer ≡ false))
          ⊎ ((c.socket ≡ no_socket) × (c.reconnect_timer ≡ true)))

Step-IsSteady : {c d : Connection} → Step c d → IsSteady c → IsSteady d
unfolding on_error on_close on_timer shutdown connect_events closed
Step-IsSteady (opens c h) s = ground arith
Step-IsSteady (fails c h) s = ground arith
Step-IsSteady (closes c h) s = ground arith
Step-IsSteady (fires c h) s = ground arith
Step-IsSteady (stops c) s = ground arith

Run-IsSteady : {c d : Connection} → Run c d → IsSteady c → IsSteady d
Run-IsSteady here s = s
Run-IsSteady (next r t) s = Step-IsSteady t (Run-IsSteady r s)

start-IsSteady : IsSteady (connect_events unconnected)
unfolding connect_events
start-IsSteady = ground arith

-- How many events are left at most until a socket is made.
distance : Socket → ℕ
distance no_socket = 1
distance closing = 2
distance connected = 3
distance connecting = 4

abbrev pub events : {c d : Connection} → Run c d → ℕ
events here = 0
events (next r t) = events r + 1

stays_stopped : {c d : Connection} → Step c d → d.stopping ≡ false → c.stopping ≡ false
unfolding on_error on_close on_timer shutdown connect_events closed
stays_stopped (opens c h) e = e
stays_stopped (fails c h) e = e
stays_stopped (closes c h) e = ground arith
stays_stopped (fires c h) e = ground arith
stays_stopped (stops c) e = cc

Step-distance :
    {c d : Connection}
    → Step c d
    → IsSteady c
    → d.stopping ≡ false
    → 1 + distance d.socket + 4 * c.attempts ≤ 4 * d.attempts + distance c.socket
unfolding on_error on_close on_timer shutdown connect_events closed distance
Step-distance (opens c h) s e = ground arith
Step-distance (fails c h) s e = ground arith
Step-distance (closes c h) s e = ground arith
Step-distance (fires c h) s e = ground arith
Step-distance (stops c) s e = ground arith

Run-distance :
    {c d : Connection} (r : Run c d)
    → IsSteady c
    → d.stopping ≡ false
    → events r + distance d.socket + 4 * c.attempts ≤ 4 * d.attempts + distance c.socket
Run-distance here s e = omega arith
Run-distance (next r t) s e =
    let before = Run-distance r s (stays_stopped t e) in
    let last = Step-distance t (Run-IsSteady r s) e in omega arith

distance_bounds : (s : Socket) → (1 ≤ distance s) × (distance s ≤ 4)
unfolding distance
distance_bounds no_socket = omega arith
distance_bounds connecting = omega arith
distance_bounds connected = omega arith
distance_bounds closing = omega arith

-- An event that is due and is not the program's stop.
moves_from :
    (c : Connection) (k : Socket)
    → c.socket ≡ k
    → IsSteady c
    → c.stopping ≡ false
    → (c.socket ≡ connected) ⊎ ((d : Connection) × Step c d × (d.stopping ≡ false))
unfolding on_close on_timer connect_events
moves_from c connected at s e = inl at
moves_from c connecting at s e = inr (record c { socket = connected }, opens c at, e)
moves_from c closing at s e = inr (on_close c, closes c (λ h. cc), rw e)
moves_from c no_socket at s e = elim (s.1 e) [
  | inl (there, unset) ↦ absurd (there at)
  | inr (gone, set) ↦ inr (on_timer c, fires c set, rw e)
]

-- While the program has not stopped the client, whatever the network does and in whatever order: of
-- the events after any point of a run at most three, and four more for each new socket, so that an
-- unbounded run keeps making sockets; and where there is no open socket the next event is due, be
-- it the opening of one, the close, or the timer.
pub reconnects :
    {c d : Connection} (before : Run (connect_events unconnected) c) (after : Run c d)
    → d.stopping ≡ false
    → (events after + 4 * c.attempts ≤ 4 * d.attempts + 3)
      × ((d.socket ≡ connected) ⊎ ((e : Connection) × Step d e × (e.stopping ≡ false)))
reconnects {c} {d} before after h =
    let steady = Run-IsSteady before start-IsSteady in
    let bound = Run-distance after steady h in
    let low = (distance_bounds d.socket).0 in
    let high = (distance_bounds c.socket).1 in
    (omega arith, moves_from d d.socket refl (Run-IsSteady after steady) h)

Step-stopped :
    {c d : Connection}
    → Step c d
    → IsSteady c
    → c.stopping ≡ true
    → (d.stopping ≡ true) × (d.attempts ≡ c.attempts)
unfolding on_error on_close on_timer shutdown connect_events closed
Step-stopped (opens c h) s t = ground arith
Step-stopped (fails c h) s t = ground arith
Step-stopped (closes c h) s t = ground arith
Step-stopped (fires c h) s t = ground arith
Step-stopped (stops c) s t = ground arith

Run-stopped :
    {c d : Connection}
    → Run c d
    → IsSteady c
    → c.stopping ≡ true
    → (d.stopping ≡ true) × (d.attempts ≡ c.attempts)
Run-stopped here s t = (t, refl)
Run-stopped (next r u) s t =
    let (a, b) = Run-stopped r s t in
    let (a', b') = Step-stopped u (Run-IsSteady r s) a in (a', b' ∙ b)

-- Once the program has stopped the client, whatever is still under way: no socket is made any more,
-- no timer is set, and no socket is open or about to be.
pub stopped_for_good :
    {c d : Connection}
    → Run (connect_events unconnected) c
    → Run (shutdown c) d
    → (d.attempts ≡ c.attempts)
      × (d.reconnect_timer ≡ false)
      × (d.socket ≢ connected)
      × (d.socket ≢ connecting)
unfolding shutdown
stopped_for_good {c} {d} r after =
    let steady = Step-IsSteady (stops c) (Run-IsSteady r start-IsSteady) in
    let (t, kept) = Run-stopped after steady refl in
    let (unset, shut, idle) = (Run-IsSteady after steady).0 t in (kept, unset, shut, idle)
