-- ===== src/Tests/Media.antt =====
-- Tests of src/media.
use mathlib.Core.List.{flatten}
use textbee_gateway.Prelude.{
  ℕ, ◌*◌, ◌≤◌, ◌<◌, ◌≡◌, refl, arith, Bool, true, false, none, some, List, [], ◌∷◌, length, ok,
  ◌==◌,
}
use textbee_gateway.JsMap.{get}
use textbee_gateway.Media.Bytes.{Buffer}
use textbee_gateway.Media.Rtp.{
  RtpFields, RtpPacket, parse_rtp_packet, build_rtp_packet, chunk_into_frames,
}
use textbee_gateway.Media.Rtp.RoundTrip.{received_packet, parse-build}
use textbee_gateway.Media.Rtp.Bounds.{LiesIn, parse_rtp_packet-LiesIn}
use textbee_gateway.Media.Rtp.Frames.{AreFrames, chunk_into_frames_lem}
use textbee_gateway.Media.Engine.{
  MediaEngine, MediaSession, MediaInput, datagram, audio_delta, pace_timer, media_run, create,
  Randoms, fresh_session, stop_session, is_active, begin_session, finish_session,
  bind_available_port, after_port, media_step,
}
use textbee_gateway.Media.Engine.Ports.{HasPort, bind_available_port_finds}
use textbee_gateway.Media.Engine.Queue.{HasFrames, media_run-HasFrames, fresh_session-HasFrames}
use textbee_gateway.Media.Engine.Pacing.{IsStream, media_run-IsStream}
use textbee_gateway.Media.Engine.Sessions.{overlapping_starts}

abbrev fields : RtpFields
fields = record {
  sequence_number = 65537;
  timestamp = 7;
  ssrc = 9;
  payload = 1 ∷ 2 ∷ 3 ∷ [];
  marker = true;
  payload_type = 96;
}

parse-build_example :
    (buf : Buffer) × (build_rtp_packet fields ≡ some buf)
    × (length buf ≡ 15)
    × (parse_rtp_packet buf ≡ some (received_packet fields))
parse-build_example = parse-build fields (omega arith)

-- One contributing source, an extension of one word, and one octet of padding.
abbrev full_packet : Buffer
full_packet =
    0xb1 ∷ 0 ∷ 0 ∷ 5 ∷ 0 ∷ 0 ∷ 0 ∷ 160 ∷ 0 ∷ 0 ∷ 0 ∷ 1 ∷ 9 ∷ 9 ∷ 9 ∷ 9 ∷ 0 ∷ 0 ∷ 0 ∷ 1 ∷ 8 ∷ 8 ∷ 8
    ∷ 8 ∷ 42 ∷ 43 ∷ 1 ∷ []

abbrev parsed_packet : RtpPacket
parsed_packet = record {
  version = 2;
  padding = true;
  extension = true;
  marker = false;
  payload_type = 0;
  sequence_number = 5;
  timestamp = 160;
  ssrc = 1;
  payload = 42 ∷ 43 ∷ [];
}

parse_full : parse_rtp_packet full_packet ≡ some parsed_packet
unfolding parse_rtp_packet
parse_full = refl

parse_rtp_packet-LiesIn_example : LiesIn full_packet 24 parsed_packet
parse_rtp_packet-LiesIn_example =
    parse_rtp_packet-LiesIn full_packet parsed_packet (omega arith) parse_full

chunk_into_frames_lem_example :
    (flatten (chunk_into_frames full_packet 10) ≡ full_packet)
    × AreFrames 10 (chunk_into_frames full_packet 10)
    × (27 ≤ 10 * length (chunk_into_frames full_packet 10))
    × (10 * length (chunk_into_frames full_packet 10) < 37)
chunk_into_frames_lem_example = chunk_into_frames_lem full_packet 10 (omega arith)

abbrev engine : MediaEngine
engine = record {
  sessions = [];
  local_host = "127.0.0.1";
  port_range_start = 40000;
  port_range_end = 40200;
  next_port = 40200;
}

create_default :
    create (record { local_host = none; port_range_start = none; port_range_end = none })
    ≡ record engine { next_port = 40000 }
unfolding create
create_default = refl

engine-HasPort : HasPort engine
engine-HasPort = record { index = 100; at = refl; inside = omega arith }

abbrev only_40002 : ℕ → Bool
only_40002 p = p == 40002

bind_wraps :
    bind_available_port only_40002 engine ≡ (some 40002, record engine { next_port = 40004 })
unfolding bind_available_port after_port
bind_wraps = refl

bind_available_port_finds_example :
    (port : ℕ) × ((bind_available_port only_40002 engine).0 ≡ some port)
    × (only_40002 port ≡ true)
    × (40000 ≤ port)
    × (port ≤ 40200)
bind_available_port_finds_example =
    bind_available_port_finds only_40002 engine 1 engine-HasPort (omega arith) refl

abbrev randoms : Randoms
randoms = record { ssrc = 11; seq = 65535; timestamp = 4294967200 }

abbrev session : MediaSession
session = fresh_session "call_1" 40000 randoms

abbrev inputs : List MediaInput
inputs =
    pace_timer
    ∷ audio_delta (1 ∷ 2 ∷ [])
    ∷ pace_timer
    ∷ datagram "10.0.0.2" 5004 full_packet
    ∷ pace_timer
    ∷ audio_delta (3 ∷ [])
    ∷ pace_timer
    ∷ pace_timer
    ∷ []

media_run-HasFrames_example : HasFrames (media_run inputs session).0
media_run-HasFrames_example =
    media_run-HasFrames inputs session (fresh_session-HasFrames "call_1" 40000 randoms)

media_run-IsStream_example : IsStream 65535 4294967200 11 (media_run inputs session).1
media_run-IsStream_example =
    media_run-IsStream inputs session (fresh_session-HasFrames "call_1" 40000 randoms)

two_sent : length (media_run inputs session).1 ≡ 2
unfolding media_run media_step parse_rtp_packet build_rtp_packet chunk_into_frames
two_sent = refl

abbrev all_free : ℕ → Bool
all_free p = true

abbrev busy : MediaEngine
busy = record engine { sessions = ("call_1", session) ∷ [] }

busy-active : is_active "call_1" busy ≡ true
unfolding is_active get
busy-active = refl

engine-idle : is_active "call_1" engine ≡ false
unfolding is_active get
engine-idle = refl

overlapping_starts_example :
    let (begun, e1) = begin_session all_free "call_1" engine in
    let (begun', e2) = begin_session all_free "call_1" e1 in
    let (started, e3) = finish_session true randoms "call_1" 40200 e2 in
    let (started', e4) = finish_session true randoms "call_1" 40000 e3 in
    let (closed, e5) = stop_session "call_1" e4 in
    let (late', f3) = finish_session true randoms "call_1" 40000 e2 in
    let (late, f4) = finish_session true randoms "call_1" 40200 f3 in
    let (shut, f5) = stop_session "call_1" f4 in
    (begun ≡ ok 40200)
    × (begun' ≡ ok 40000)
    × ((started ≡ ok (e2.local_host, 40200))
        × (started' ≡ ok (e2.local_host, 40000))
        × (closed ≡ some 40000)
        × (is_active "call_1" e5 ≡ false))
    × ((late' ≡ ok (e2.local_host, 40000))
        × (late ≡ ok (e2.local_host, 40200))
        × (shut ≡ some 40200)
        × (is_active "call_1" f5 ≡ false))
unfolding bind_available_port after_port
overlapping_starts_example =
    overlapping_starts all_free all_free randoms randoms "call_1" engine engine-idle refl refl
