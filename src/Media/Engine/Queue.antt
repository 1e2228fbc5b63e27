-- ===== src/Media/Engine/Queue.antt =====
-- The queue of a session: how long it gets, what it holds, and what it drops.
use mathlib.Core.Path.{subst}
use textbee_gateway.Prelude.{
  All-append, ℕ, zero, suc, ◌-◌, ◌<◌, ◌≤◌, ◌≡◌, refl, sym, ap, arith, Option, none, some, String,
  List, [], ◌∷◌, ◌++◌, length, take, drop, length-drop, take-append-drop, All, Bool-cases, ltb→lt,
  inl, inr, ltb, ◌⊎◌,
}
use textbee_gateway.Media.Bytes.{Buffer}
use textbee_gateway.Media.Rtp.{chunk_into_frames}
use textbee_gateway.Media.Rtp.Frames.{AreFrames, chunk_into_frames_lem}
use textbee_gateway.Media.Engine.{
  MediaSession, Randoms, fresh_session, trim_queue, on_audio_delta, on_datagram, flush_to,
  destination, send_frame, MediaInput, datagram, audio_delta, pace_timer, media_step, media_run,
}

-- A frame that can be sent as one packet of twenty milliseconds.
abbrev pub IsFrame : Buffer → Type 0
IsFrame f = (0 < length f) × (length f ≤ 160)

pub record HasFrames (s : MediaSession) : Type 0 where
  pub bounded : length s.outbound_queue ≤ 500
  pub frames : All IsFrame s.outbound_queue

All-drop : (n : ℕ) (xs : List Buffer) → All IsFrame xs → All IsFrame (drop n xs)
All-drop zero xs h = h
All-drop (suc n) [] h = h
All-drop (suc n) (x ∷ xs) h = All-drop n xs h.1

AreFrames-All : (fs : List Buffer) → AreFrames 160 fs → All IsFrame fs
AreFrames-All [] h = tt
AreFrames-All (f ∷ []) h = (h, tt)
AreFrames-All (f ∷ g ∷ fs) h = ((ground arith, ground arith), AreFrames-All (g ∷ fs) h.1)

trim_queue_lem :
    (queue : List Buffer)
    → All IsFrame queue
    → All IsFrame (trim_queue queue) × (length (trim_queue queue) ≤ 500)
unfolding trim_queue
trim_queue_lem queue h = elim (Bool-cases (ltb 500 (length queue))) [
  | inl long ↦ rw long (
    All-drop (length queue - 500) queue h,
    omega (arith, length-drop {0} (length queue - 500) queue),
  )
  | inr short ↦ rw short (h, ground arith)
]

pub fresh_session-HasFrames :
    (call_id : String) (port : ℕ) (r : Randoms) → HasFrames (fresh_session call_id port r)
fresh_session-HasFrames call_id port r = record { bounded = omega arith; frames = tt }

on_audio_delta-HasFrames :
    (buf : Buffer) (s : MediaSession) → HasFrames s → HasFrames (on_audio_delta buf s)
unfolding on_audio_delta
on_audio_delta-HasFrames buf s h =
    let full = (chunk_into_frames_lem buf 160 (omega arith)).1 in
    let (frames, bounded) =
      trim_queue_lem (s.outbound_queue ++ chunk_into_frames buf 160)
        (All-append IsFrame s.outbound_queue _ h.frames (AreFrames-All _ full)) in
    record { bounded = bounded; frames = frames }

on_datagram-HasFrames :
    (address : String) (port : ℕ) (msg : Buffer) (s : MediaSession)
    → HasFrames s
    → HasFrames (on_datagram address port msg s).0
unfolding on_datagram
on_datagram-HasFrames address port msg s h = record { bounded = h.bounded; frames = h.frames }

send_frame-queue :
    (to : String × ℕ) (f : Buffer) (q : List Buffer) (s : MediaSession)
    → (send_frame to (f ∷ q) s).0.outbound_queue ≡ q
unfolding send_frame
send_frame-queue to f q s = ground arith

send_frame-HasFrames :
    (to : String × ℕ) (q : List Buffer) (s : MediaSession)
    → s.outbound_queue ≡ q
    → HasFrames s
    → HasFrames (send_frame to q s).0
send_frame-HasFrames to [] s e h = unfold send_frame in h
send_frame-HasFrames to (f ∷ q) s e h = record {
  bounded = rw (send_frame-queue to f q s) (omega (arith, ap length e, h.bounded));
  frames = rw (send_frame-queue to f q s) (subst (All IsFrame) e h.frames).1;
}

flush_to-HasFrames :
    (to : Option (String × ℕ)) (s : MediaSession) → HasFrames s → HasFrames (flush_to to s).0
unfolding flush_to
flush_to-HasFrames none s h = h
flush_to-HasFrames (some to) s h = send_frame-HasFrames to s.outbound_queue s refl h

pub media_step-HasFrames :
    (i : MediaInput) (s : MediaSession) → HasFrames s → HasFrames (media_step i s).0
unfolding media_step
media_step-HasFrames (datagram address port msg) s h = on_datagram-HasFrames address port msg s h
media_step-HasFrames (audio_delta buf) s h = on_audio_delta-HasFrames buf s h
media_step-HasFrames pace_timer s h =
    flush_to-HasFrames (destination s.remote_addr s.remote_port) s h

-- Whatever comes in, and in whatever order, a session's queue holds at most 500 frames, each of 1
-- to 160 octets.
pub media_run-HasFrames :
    (is : List MediaInput) (s : MediaSession) → HasFrames s → HasFrames (media_run is s).0
unfolding media_run
media_run-HasFrames [] s h = h
media_run-HasFrames (i ∷ is) s h =
    media_run-HasFrames is (media_step i s).0 (media_step-HasFrames i s h)

-- New audio goes behind what is queued. Only where there is too much of it is anything dropped,
-- and then the oldest frames, down to 500.
pub on_audio_delta_newest :
    (buf : Buffer) (s : MediaSession)
    → (dropped : List Buffer) × (s.outbound_queue ++ chunk_into_frames buf 160
        ≡ dropped ++ (on_audio_delta buf s).outbound_queue)
      × ((dropped ≡ []) ⊎ (length (on_audio_delta buf s).outbound_queue ≡ 500))
unfolding on_audio_delta
on_audio_delta_newest buf s =
    let queue = s.outbound_queue ++ chunk_into_frames buf 160 in
    elim (Bool-cases (ltb 500 (length queue))) [
      | inl long ↦ (
        take (length queue - 500) queue,
        rw long (sym (take-append-drop _ queue)),
        inr (rw long (omega (arith, length-drop {0} (length queue - 500) queue, ltb→lt _ _ long))),
      )
      | inr short ↦ ([], rw short, inl refl)
    ]
