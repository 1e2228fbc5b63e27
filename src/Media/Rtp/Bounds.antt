-- ===== src/Media/Rtp/Bounds.antt =====
-- What any received datagram parses to: the reads stay inside it, and the numbers in their widths.
use mathlib.Core.List.{append-nil}
use mathlib.Core.Path.{subst}
use textbee_gateway.Prelude.{
  ℕ, suc, zero, ◌+◌, ◌-◌, ◌*◌, ◌/◌, ◌%◌, ◌^◌, ◌<◌, ◌≤◌, ◌≡◌, refl, sym, arith, Option, none, some,
  Bool, [], ◌∷◌, ◌++◌, ◌==◌, ◌&&◌, ltb, length, take, drop, take-append-drop, length-take, true,
  false, Bool-cases, inl, inr, if◌then◌else◌, get_or, All,
}
use textbee_gateway.Media.Bytes.{Buffer, IsByte, read_uint16}
use textbee_gateway.Media.Rtp.{
  RtpPacket, parse_rtp_packet, strip_padding, payload_offset, packet_at, packet_if,
}

get_or-IsByte : (buf : Buffer) (i : ℕ) → All IsByte buf → get_or buf i 0 < 256
get_or-IsByte [] i h = omega arith
get_or-IsByte (b ∷ buf) zero h = h.0
get_or-IsByte (b ∷ buf) (suc i) h = get_or-IsByte buf i h.1

-- The payload is what stands between two parts of the rest of the packet.
strip_padding_part :
    (padding : Bool) (rest : Buffer) → (post : Buffer) × (strip_padding padding rest ++ post ≡ rest)
unfolding strip_padding
strip_padding_part padding rest = elim (Bool-cases (padding && ltb 0 (length rest))) [
  | inl yes' ↦
      (drop (length rest - get_or rest (length rest - 1) 0) rest, rw yes' (take-append-drop _ rest))
  | inr no' ↦ ([], rw no' (append-nil rest))
]

-- The octets in front of the payload, as RFC 3550 has them: twelve, four for each contributing
-- source, and with an extension its own four and the words that it counts.
abbrev pub header_size : Buffer → ℕ
header_size buf =
    let fixed = 12 + get_or buf 0 0 % 16 * 4 in
    if get_or buf 0 0 / 16 % 2 == 1 then fixed + (4 + read_uint16 buf (fixed + 2) * 4) else fixed

payload_offset_found :
    (buf : Buffer) (extension : Bool) (o n : ℕ)
    → payload_offset buf extension o ≡ some n
    → n ≡ (if extension then o + (4 + read_uint16 buf (o + 2) * 4) else o)
unfolding payload_offset
payload_offset_found buf false o n h = cc h
payload_offset_found buf true o n h = elim (Bool-cases (ltb (length buf) (o + 4))) [
  | inl short ↦ cc (rw short at h)
  | inr long ↦ cc (rw long at h)
]

payload_offset-header_size :
    (buf : Buffer) (n : ℕ)
    → payload_offset buf (get_or buf 0 0 / 2 ^ 4 % 2 == 1) (12 + get_or buf 0 0 % 2 ^ 4 * 4)
      ≡ some n
    → n ≡ header_size buf
payload_offset-header_size buf n h = payload_offset_found buf _ _ n h

packet_if-offset :
    (buf : Buffer) (o : Option ℕ) (p : RtpPacket)
    → packet_if buf o ≡ some p
    → (n : ℕ) × (o ≡ some n) × (n ≤ length buf) × (packet_at buf n ≡ p)
unfolding packet_if
packet_if-offset buf none p h = cc
packet_if-offset buf (some n) p h = (n, refl, ground arith, ground arith)

parse_rtp_packet-packet_if :
    (buf : Buffer) (p : RtpPacket)
    → parse_rtp_packet buf ≡ some p
    → (12 ≤ length buf)
      × (packet_if buf
            (payload_offset buf (get_or buf 0 0 / 2 ^ 4 % 2 == 1) (12 + get_or buf 0 0 % 2 ^ 4 * 4))
          ≡ some p)
unfolding parse_rtp_packet
parse_rtp_packet-packet_if buf p h = elim (Bool-cases (ltb (length buf) 12)) [
  | inl short ↦ cc (rw short at h)
  | inr long ↦ (ground arith, rw long at h)
]

-- An accepted datagram was read at a payload offset that lies in it.
parse_rtp_packet-offset :
    (buf : Buffer) (p : RtpPacket)
    → parse_rtp_packet buf ≡ some p
    → (header_size buf ≤ length buf) × (packet_at buf (header_size buf) ≡ p)
parse_rtp_packet-offset buf p h =
    let (long, accepted) = parse_rtp_packet-packet_if buf p h in
    let (n, at, inside, same) = packet_if-offset buf _ p accepted in
    let e = payload_offset-header_size buf n at in (rw (← e) inside, rw (← e) same)

-- A packet that was read out of a datagram: the payload is a contiguous part of it, right behind
-- the `header` octets of the header, and every number fits its field.
pub record LiesIn (buf : Buffer) (header : ℕ) (p : RtpPacket) : Type 0 where
  pub pre : Buffer
  pub post : Buffer
  pub parts : buf ≡ pre ++ (p.payload ++ post)
  pub behind : length pre ≡ header
  pub version : p.version < 4
  pub payload_type : p.payload_type < 128
  pub sequence_number : p.sequence_number < 2 ^ 16
  pub timestamp : p.timestamp < 2 ^ 32
  pub ssrc : p.ssrc < 2 ^ 32

packet_at-LiesIn :
    (buf : Buffer) (n : ℕ) → All IsByte buf → n ≤ length buf → LiesIn buf n (packet_at buf n)
unfolding packet_at
packet_at-LiesIn buf n bytes inside =
    let byte = λ (i : ℕ). get_or-IsByte buf i bytes in
    let (post, tail) = strip_padding_part (get_or buf 0 0 / 2 ^ 5 % 2 == 1) (drop n buf) in
    record {
      pre = take n buf;
      post = post;
      parts = rw tail (sym (take-append-drop n buf));
      behind = omega (arith, length-take {0} n buf);
      version = omega (arith, byte 0);
      payload_type = omega arith;
      sequence_number = omega (arith, byte 2, byte 3);
      timestamp = omega (arith, byte 4, byte 5, byte 6, byte 7);
      ssrc = omega (arith, byte 8, byte 9, byte 10, byte 11);
    }

-- A datagram of bytes that is accepted holds its whole header, contributing sources and extension
-- included; its payload is a contiguous part of it right behind the header; and its numbers fit
-- their fields.
pub parse_rtp_packet-LiesIn :
    (buf : Buffer) (p : RtpPacket)
    → All IsByte buf
    → parse_rtp_packet buf ≡ some p
    → LiesIn buf (header_size buf) p
parse_rtp_packet-LiesIn buf p bytes h =
    let (inside, same) = parse_rtp_packet-offset buf p h in
    subst (LiesIn buf (header_size buf)) same (packet_at-LiesIn buf (header_size buf) bytes inside)
