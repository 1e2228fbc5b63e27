-- ===== src/Media/Engine.antt =====
-- src/media/media-engine.ts. An `await` cuts a method in two: `begin_session` is what
-- `startSession` does up to the connection of the voice provider, `finish_session` what it does
-- after. What a socket, the system's ports, a provider and `Math.random` answer are arguments.
-- A socket's port stands for the socket.
pub mod Ports
pub mod Queue
pub mod Pacing
pub mod Sessions
use textbee_gateway.Prelude.{
  ℕ, zero, suc, ◌+◌, ◌-◌, ◌/◌, ◌%◌, ◌^◌, Bool, true, false, not, ◌||◌, Option, none, some, String,
  List, [], ◌∷◌, ◌++◌, Result, ok, err, length, drop, ltb, ◌==◌, ◌===◌, if◌then◌else◌, or_default,
}
use textbee_gateway.JsMap.{JsMap, get, set, delete, has, keys}
use textbee_gateway.Media.Bytes.{Buffer}
use textbee_gateway.Media.Rtp.{
  RtpPacket, parse_rtp_packet, build_rtp_packet, chunk_into_frames, samples_per_20ms,
  pcmu_payload_type,
}

abbrev pub max_outbound_frames : ℕ
max_outbound_frames = 500

pub record MediaSession : Type 0 where
  pub call_id : String
  pub local_port : ℕ
  pub remote_addr : Option String
  pub remote_port : Option ℕ
  pub ssrc : ℕ
  pub seq : ℕ
  pub timestamp : ℕ
  pub outbound_queue : List Buffer

pub record MediaEngine : Type 0 where
  pub sessions : JsMap MediaSession
  pub local_host : String
  pub port_range_start : ℕ
  pub port_range_end : ℕ
  pub next_port : ℕ

pub record MediaEngineOptions : Type 0 where
  pub local_host : Option String
  pub port_range_start : Option ℕ
  pub port_range_end : Option ℕ

unfoldable pub create : MediaEngineOptions → MediaEngine
create opts = record {
  sessions = [];
  local_host = or_default opts.local_host "127.0.0.1";
  port_range_start = or_default opts.port_range_start 40000;
  port_range_end = or_default opts.port_range_end 40200;
  next_port = or_default opts.port_range_start 40000;
}

pub data MediaError : Type 0 where
  already_active : String → MediaError
  no_available_port : MediaError
  connect_failed : MediaError

unfoldable pub after_port : ℕ → ℕ → ℕ → ℕ
after_port first last port = if ltb last (port + 2) then first else port + 2

-- The loop of `bindAvailablePort`: the port that was bound, and the next port to try. `free` says
-- of a port whether the system lets it be bound.
unfoldable pub bind_loop : (ℕ → Bool) → ℕ → ℕ → ℕ → ℕ → Option ℕ × ℕ
bind_loop free first last zero port = (none, port)
bind_loop free first last (suc attempts) port =
    let retry = bind_loop free first last attempts (after_port first last port) in
    if free port then (some port, after_port first last port) else retry

unfoldable pub bind_available_port : (ℕ → Bool) → MediaEngine → Option ℕ × MediaEngine
unfolding bind_loop
bind_available_port free e =
    let (port, next) =
      bind_loop free e.port_range_start e.port_range_end
        ((e.port_range_end - e.port_range_start) / 2 + 1) e.next_port in
    (port, record e { next_port = next })

opened : Option ℕ × MediaEngine → Result MediaError ℕ × MediaEngine
opened (none, e) = (err no_available_port, e)
opened (some port, e) = (ok port, e)

-- `startSession` up to `await provider.connect`.
unfoldable pub begin_session : (ℕ → Bool) → String → MediaEngine → Result MediaError ℕ × MediaEngine
unfolding bind_available_port has opened
begin_session free call_id e =
    if has call_id e.sessions
    then (err (already_active call_id), e)
    else opened (bind_available_port free e)

-- The three random starting values.
pub record Randoms : Type 0 where
  pub ssrc : ℕ
  pub seq : ℕ
  pub timestamp : ℕ

abbrev pub fresh_session : String → ℕ → Randoms → MediaSession
fresh_session call_id port r = record {
  call_id = call_id;
  local_port = port;
  remote_addr = none;
  remote_port = none;
  ssrc = r.ssrc;
  seq = r.seq;
  timestamp = r.timestamp;
  outbound_queue = [];
}

-- `startSession` from there on: a failed connection closes the socket and is thrown again.
unfoldable pub finish_session :
    Bool → Randoms → String → ℕ → MediaEngine → Result MediaError (String × ℕ) × MediaEngine
finish_session connected r call_id port e =
    if connected
    then (
      ok (e.local_host, port),
      record e { sessions = set call_id (fresh_session call_id port r) e.sessions },
    )
    else (err connect_failed, e)

finish_if :
    Bool
    → Randoms
    → String
    → Result MediaError ℕ × MediaEngine
    → Result MediaError (String × ℕ) × MediaEngine
unfolding finish_session
finish_if connected r call_id (ok port, e) = finish_session connected r call_id port e
finish_if connected r call_id (err x, e) = (err x, e)

-- `startSession` with nothing else in between.
unfoldable pub start_session :
    (ℕ → Bool)
    → Bool
    → Randoms
    → String
    → MediaEngine
    → Result MediaError (String × ℕ) × MediaEngine
unfolding begin_session finish_if
start_session free connected r call_id e =
    finish_if connected r call_id (begin_session free call_id e)

-- `stopSession`, with the port of the socket that it closes.
unfoldable pub stop_session : String → MediaEngine → Option ℕ × MediaEngine
stop_session call_id e = elim (get call_id e.sessions) [
  | none ↦ (none, e)
  | some s ↦ (some s.local_port, record e { sessions = delete call_id e.sessions })
]

stop_all : List String → MediaEngine → List (Option ℕ) × MediaEngine
unfolding stop_session
stop_all [] e = ([], e)
stop_all (call_id ∷ call_ids) e =
    let (closed, e1) = stop_session call_id e in
    let (rest, e2) = stop_all call_ids e1 in (closed ∷ rest, e2)

-- The synchronous parts of `stopSession`, one for each key, come before any provider has closed.
unfoldable pub shutdown : MediaEngine → List (Option ℕ) × MediaEngine
unfolding stop_all
shutdown e = stop_all (keys e.sessions) e

unfoldable pub is_active : String → MediaEngine → Bool
unfolding has
is_active call_id e = has call_id e.sessions

-- What is handed to the provider of a datagram: nothing, if it is no packet or has no payload.
heard : Option RtpPacket → Option Buffer
heard none = none
heard (some packet) = if length packet.payload == 0 then none else some packet.payload

-- The socket's "message" handler.
unfoldable pub on_datagram : String → ℕ → Buffer → MediaSession → MediaSession × Option Buffer
unfolding heard
on_datagram address port msg s =
    (record s { remote_addr = some address; remote_port = some port }, heard (parse_rtp_packet msg))

-- `splice(0, length - MAX_OUTBOUND_FRAMES)` where the queue is too long.
unfoldable pub trim_queue : List Buffer → List Buffer
trim_queue queue =
    if ltb max_outbound_frames (length queue)
    then drop (length queue - max_outbound_frames) queue
    else queue

-- The provider's audio callback.
unfoldable pub on_audio_delta : Buffer → MediaSession → MediaSession
unfolding trim_queue
on_audio_delta buf s = record s {
  outbound_queue = trim_queue (s.outbound_queue ++ chunk_into_frames buf samples_per_20ms);
}

pub record Sent : Type 0 where
  pub packet : Buffer
  pub port : ℕ
  pub address : String

-- `!session.remoteAddr || !session.remotePort`, where an empty text and port 0 are false too.
unfoldable pub destination : Option String → Option ℕ → Option (String × ℕ)
destination none port = none
destination (some address) none = none
destination (some address) (some port) =
    if (address === "") || (port == 0) then none else some (address, port)

sent_to : String × ℕ → Option Buffer → Option Sent
sent_to to none = none
sent_to (address, port) (some packet) =
    some (record { packet = packet; port = port; address = address })

advanced : List Buffer → MediaSession → MediaSession
advanced rest s = record s {
  outbound_queue = rest;
  seq = s.seq + 1;
  timestamp = (s.timestamp + samples_per_20ms) % 2 ^ 32;
}

-- The frame at the head of the queue is shifted out, sent, and counted.
send_frame : String × ℕ → List Buffer → MediaSession → MediaSession × Option Sent
unfolding sent_to advanced
send_frame to [] s = (s, none)
send_frame to (frame ∷ rest) s =
    if length frame == 0 then (record s { outbound_queue = rest }, none) else (
      advanced rest s,
      sent_to to (
          build_rtp_packet (record {
            sequence_number = s.seq;
            timestamp = s.timestamp;
            ssrc = s.ssrc;
            payload = frame;
            marker = false;
            payload_type = pcmu_payload_type;
          })),
    )

flush_to : Option (String × ℕ) → MediaSession → MediaSession × Option Sent
unfolding send_frame
flush_to none s = (s, none)
flush_to (some to) s = send_frame to s.outbound_queue s

-- `flushOneFrame` on a session that is there.
unfoldable pub flush_one_frame : MediaSession → MediaSession × Option Sent
unfolding flush_to destination
flush_one_frame s = flush_to (destination s.remote_addr s.remote_port) s

flushed : String → MediaEngine → MediaSession × Option Sent → MediaEngine × Option Sent
flushed call_id e (s, sent) = (record e { sessions = set call_id s e.sessions }, sent)

-- `flushOneFrame`: the session that the map holds under the call is changed in place.
unfoldable pub flush_call : String → MediaEngine → MediaEngine × Option Sent
unfolding flush_one_frame flushed
flush_call call_id e = elim (get call_id e.sessions) [
  | none ↦ (e, none)
  | some s ↦ flushed call_id e (flush_one_frame s)
]

-- What happens to a running session, in the order in which the event loop handles it.
pub data MediaInput : Type 0 where
  datagram : String → ℕ → Buffer → MediaInput
  audio_delta : Buffer → MediaInput
  pace_timer : MediaInput

unfoldable pub media_step : MediaInput → MediaSession → MediaSession × Option Sent
unfolding on_datagram on_audio_delta flush_one_frame
media_step (datagram address port msg) s = ((on_datagram address port msg s).0, none)
media_step (audio_delta buf) s = (on_audio_delta buf s, none)
media_step pace_timer s = flush_one_frame s

collect : Option Sent → List Sent → List Sent
collect none out = out
collect (some p) out = p ∷ out

-- The session after a sequence of inputs, and the packets that it sent, in order.
unfoldable pub media_run : List MediaInput → MediaSession → MediaSession × List Sent
unfolding collect
media_run [] s = (s, [])
media_run (i ∷ is) s =
    let (s', sent) = media_step i s in let (end, out) = media_run is s' in (end, collect sent out)
