-- ===== src/Media/Engine/Pacing.antt =====
-- The packets that a session sends.
use mathlib.Core.Path.{subst}
use textbee_gateway.Prelude.{
  ℕ, ◌+◌, ◌%◌, ◌^◌, ◌<◌, ◌≡◌, sym, arith, false, none, some, Option, String, List, [], ◌∷◌, length,
  Bool-cases, inl, inr, All, ◌==◌,
}
use textbee_gateway.Media.Bytes.{Buffer}
use textbee_gateway.Media.Rtp.{RtpFields, parse_rtp_packet}
use textbee_gateway.Media.Rtp.RoundTrip.{received_packet, parse-build}
use textbee_gateway.Media.Engine.{
  MediaSession, Sent, MediaInput, datagram, audio_delta, pace_timer, media_step, media_run,
  flush_to, send_frame, destination, collect, advanced,
}
use textbee_gateway.Media.Engine.Queue.{HasFrames, IsFrame, media_step-HasFrames}

abbrev pub frame_fields : ℕ → ℕ → ℕ → Buffer → RtpFields
frame_fields seq timestamp ssrc payload = record {
  sequence_number = seq;
  timestamp = timestamp;
  ssrc = ssrc;
  payload = payload;
  marker = false;
  payload_type = 0;
}

-- A stream as its receiver wants it: each packet carries one frame, numbers go up by one and
-- timestamps by 160, modulo their widths, and the source stays the same.
abbrev pub IsStream : ℕ → ℕ → ℕ → List Sent → Type 0
IsStream seq timestamp ssrc [] = Unit
IsStream seq timestamp ssrc (p ∷ ps) =
    ((payload : Buffer) × IsFrame payload
      × (parse_rtp_packet p.packet
          ≡ some (received_packet (frame_fields seq timestamp ssrc payload))))
    × IsStream (seq + 1) ((timestamp + 160) % 2 ^ 32) ssrc ps

send_frame-eq :
    (to : String × ℕ) (f : Buffer) (q : List Buffer) (s : MediaSession)
    → 0 < length f
    → (buf : Buffer) × (parse_rtp_packet buf
        ≡ some (received_packet (frame_fields s.seq s.timestamp s.ssrc f)))
      × (send_frame to (f ∷ q) s
          ≡ (advanced q s, some (record { packet = buf; port = to.1; address = to.0 })))
unfolding send_frame
send_frame-eq to f q s pos =
    let (buf, built, _, parsed) =
      parse-build (frame_fields s.seq s.timestamp s.ssrc f) (omega arith) in
    (
      buf,
      parsed,
      elim (Bool-cases (length f == 0)) [
        | inl empty ↦ absurd (ground arith)
        | inr full ↦ rw (full, built)
      ],
    )

-- What a step leaves and sends goes on with the stream.
abbrev Continues : MediaSession → List Sent → MediaSession × Option Sent → Type 0
Continues s ps r =
    IsStream r.0.seq r.0.timestamp r.0.ssrc ps → IsStream s.seq s.timestamp s.ssrc (collect r.1 ps)

send_frame-Continues :
    (to : String × ℕ) (q : List Buffer) (s : MediaSession) (ps : List Sent)
    → All IsFrame q
    → Continues s ps (send_frame to q s)
unfolding collect
send_frame-Continues to [] s ps frames = unfold send_frame in λ h. h
send_frame-Continues to (f ∷ q) s ps frames =
    let (buf, parsed, same) = send_frame-eq to f q s frames.0.0 in
    subst (Continues s ps) (sym same) (unfold advanced in λ h. ((f, frames.0, parsed), h))

flush_to-Continues :
    (to : Option (String × ℕ)) (s : MediaSession) (ps : List Sent)
    → HasFrames s
    → Continues s ps (flush_to to s)
unfolding flush_to
flush_to-Continues none s ps h = unfold collect in λ k. k
flush_to-Continues (some to) s ps h = send_frame-Continues to s.outbound_queue s ps h.frames

media_step-Continues :
    (i : MediaInput) (s : MediaSession) (ps : List Sent)
    → HasFrames s
    → Continues s ps (media_step i s)
unfolding media_step collect
media_step-Continues (datagram address port msg) s ps h = λ k. k
media_step-Continues (audio_delta buf) s ps h = λ k. k
media_step-Continues pace_timer s ps h =
    flush_to-Continues (destination s.remote_addr s.remote_port) s ps h

-- Whatever comes in, and in whatever order, what a session sends is one stream: every packet
-- parses, carries one frame of 1 to 160 octets, and is numbered and timed after the one before.
pub media_run-IsStream :
    (is : List MediaInput) (s : MediaSession)
    → HasFrames s
    → IsStream s.seq s.timestamp s.ssrc (media_run is s).1
unfolding media_run
media_run-IsStream [] s h = tt
media_run-IsStream (i ∷ is) s h =
    media_step-Continues i s (media_run is (media_step i s).0).1 h
      (media_run-IsStream is (media_step i s).0 (media_step-HasFrames i s h))
