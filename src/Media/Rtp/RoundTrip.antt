-- ===== src/Media/Rtp/RoundTrip.antt =====
-- A packet that is built is read back, and reading never goes past the packet.
use Prim.Native.Nat.{bit_or}
use native.Mathlib.Decide.{ℕ_discrete}
use textbee_gateway.Prelude.{
  ℕ, zero, suc, ◌&&◌, ◌+◌, ◌∷◌, ◌++◌, ◌%◌, ◌^◌, ◌<◌, ◌≡◌, refl, arith, some, true, false, Bool,
  if◌then◌else◌, ◌==◌, length,
}
use textbee_gateway.Media.Bytes.{Buffer, write_uint16, write_uint32}
use textbee_gateway.Media.Rtp.{RtpPacket, RtpFields, parse_rtp_packet, build_rtp_packet}

-- What a receiver sees of the fields: the numbers wrap at their widths.
abbrev pub received_packet : RtpFields → RtpPacket
received_packet fields = record {
  version = 2;
  padding = false;
  extension = false;
  marker = fields.marker;
  payload_type = fields.payload_type;
  sequence_number = fields.sequence_number % 2 ^ 16;
  timestamp = fields.timestamp % 2 ^ 32;
  ssrc = fields.ssrc % 2 ^ 32;
  payload = fields.payload;
}

-- Whether no payload type under `bound` meets the marker's bit.
clear_under : (bound : ℕ) → Bool
clear_under zero = true
clear_under (suc k) =
    let below = clear_under k in
    if (bit_or 128 k == 128 + k) && (bit_or 0 k == k) then below else false

clear_under_seven_bits : clear_under 128 ≡ true
unfolding clear_under
clear_under_seven_bits = refl

-- The marker bit stands clear of a payload type that was looked at.
marker_octet :
    (m : Bool) (bound x : ℕ)
    → clear_under bound ≡ true
    → x < bound
    → bit_or (if m then 128 else 0) x ≡ (if m then 128 else 0) + x
unfolding clear_under
marker_octet m zero x clear low = absurd (omega arith)
marker_octet true (suc k) x clear low = elim (ℕ_discrete x k) [
  | yes last ↦ rw last (ground arith)
  | no other ↦ marker_octet true k x (ground arith) (omega arith)
]
marker_octet false (suc k) x clear low = elim (ℕ_discrete x k) [
  | yes last ↦ rw last (ground arith)
  | no other ↦ marker_octet false k x (ground arith) (omega arith)
]

-- The octets of a packet.
abbrev packet_octets : RtpFields → Buffer
packet_octets fields =
    0x80
    ∷ ((if fields.marker then 128 else 0) + fields.payload_type)
    ∷ (write_uint16 (fields.sequence_number % 2 ^ 16)
        ++ write_uint32 (fields.timestamp % 2 ^ 32)
        ++ write_uint32 (fields.ssrc % 2 ^ 32)
        ++ fields.payload)

build_rtp_packet-octets :
    (fields : RtpFields)
    → fields.payload_type < 128
    → build_rtp_packet fields ≡ some (packet_octets fields)
unfolding build_rtp_packet
build_rtp_packet-octets fields h =
    rw (marker_octet fields.marker 128 fields.payload_type clear_under_seven_bits h) (ground arith)

parse-octets :
    (fields : RtpFields)
    → fields.payload_type < 128
    → parse_rtp_packet (packet_octets fields) ≡ some (received_packet fields)
unfolding parse_rtp_packet
parse-octets fields h = ground arith

-- Building a packet whose payload type fits seven bits succeeds, and parsing it gives back every
-- field, the sequence number modulo 2 ^ 16 and the timestamp and the source modulo 2 ^ 32.
pub parse-build :
    (fields : RtpFields)
    → fields.payload_type < 128
    → (buf : Buffer) × (build_rtp_packet fields ≡ some buf)
      × (length buf ≡ 12 + length fields.payload)
      × (parse_rtp_packet buf ≡ some (received_packet fields))
parse-build fields h =
    (packet_octets fields, build_rtp_packet-octets fields h, omega arith, parse-octets fields h)
