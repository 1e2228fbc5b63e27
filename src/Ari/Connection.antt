-- ===== src/Ari/Connection.antt =====
-- The event socket of a client: `connectEvents` with the handlers that it sets, and `shutdown`, of
-- src/adapters/asterisk-ari-adapter.ts. A socket is `connecting` from the call of its constructor
-- until the library has it open, and one that was asked to close, or failed, is `closing` until its
-- "close" event comes. `attempts` counts the sockets that were made.
pub mod Runs
use textbee_gateway.Prelude.{ℕ, ◌+◌, Bool, true, false, if◌then◌else◌}

pub data Socket : Type 0 where
  no_socket connecting connected closing : Socket

pub record Connection : Type 0 where
  pub stopping : Bool
  pub socket : Socket
  pub reconnect_timer : Bool
  pub attempts : ℕ

abbrev pub unconnected : Connection
unconnected = record { stopping = false; socket = no_socket; reconnect_timer = false; attempts = 0 }

unfoldable pub connect_events : Connection → Connection
connect_events c =
    if c.stopping then c else record c { socket = connecting; attempts = c.attempts + 1 }

-- `ws.close()`
pub closed : Socket → Socket
closed connecting = closing
closed connected = closing
closed closing = closing
closed no_socket = no_socket

-- The "error" handler.
unfoldable pub on_error : Connection → Connection
unfolding closed
on_error c = record c { socket = closed c.socket }

-- The "close" handler.
unfoldable pub on_close : Connection → Connection
on_close c =
    if c.stopping
    then record c { socket = no_socket }
    else record c { socket = no_socket; reconnect_timer = true }

-- The timer fires once.
unfoldable pub on_timer : Connection → Connection
unfolding connect_events
on_timer c = connect_events (record c { reconnect_timer = false })

unfoldable pub shutdown : Connection → Connection
unfolding closed
shutdown c = record c { stopping = true; reconnect_timer = false; socket = closed c.socket }
