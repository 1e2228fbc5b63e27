-- ===== src/Media/Rtp.antt =====
-- src/media/rtp-codec.ts. `>>`, `&` and `>>>` on the non-negative numbers met here are division
-- and remainder; `|` is the bitwise or of the native numbers.
pub mod Bounds
pub mod RoundTrip
pub mod Frames
use Prim.Native.Nat.{bit_or}
use textbee_gateway.Prelude.{
  ℕ, zero, suc, ◌+◌, ◌-◌, ◌*◌, ◌/◌, ◌%◌, ◌^◌, Bool, true, false, Option, none, some, List, [], ◌∷◌,
  ◌++◌, length, drop, take, ltb, ◌==◌, if◌then◌else◌, ◌&&◌,
}
use textbee_gateway.Media.Bytes.{
  Buffer, read_uint8, read_uint16, read_uint32, write_uint16, write_uint32,
}

abbrev pub rtp_header_len : ℕ
rtp_header_len = 12

abbrev pub pcmu_payload_type : ℕ
pcmu_payload_type = 0

abbrev pub samples_per_20ms : ℕ
samples_per_20ms = 160

pub record RtpPacket : Type 0 where
  pub version : ℕ
  pub padding : Bool
  pub extension : Bool
  pub marker : Bool
  pub payload_type : ℕ
  pub sequence_number : ℕ
  pub timestamp : ℕ
  pub ssrc : ℕ
  pub payload : Buffer

-- The offset of the payload, past the contributing sources and the extension; `none` where the
-- extension's own header is cut off.
payload_offset : Buffer → Bool → ℕ → Option ℕ
payload_offset buf false offset = some offset
payload_offset buf true offset =
    if ltb (length buf) (offset + 4)
    then none
    else some (offset + (4 + read_uint16 buf (offset + 2) * 4))

-- `payload.readUInt8(payload.length - 1)` octets come off the end; more than there are leave none.
unfoldable pub strip_padding : Bool → Buffer → Buffer
strip_padding padding payload =
    if padding && ltb 0 (length payload)
    then take (length payload - read_uint8 payload (length payload - 1)) payload
    else payload

packet_at : Buffer → ℕ → RtpPacket
unfolding strip_padding
packet_at buf offset =
    let b0 = read_uint8 buf 0 in
    let b1 = read_uint8 buf 1 in
    let padding = b0 / 2 ^ 5 % 2 == 1 in
    record {
      version = b0 / 2 ^ 6;
      padding = padding;
      extension = b0 / 2 ^ 4 % 2 == 1;
      marker = b1 / 2 ^ 7 == 1;
      payload_type = b1 % 2 ^ 7;
      sequence_number = read_uint16 buf 2;
      timestamp = read_uint32 buf 4;
      ssrc = read_uint32 buf 8;
      payload = strip_padding padding (drop offset buf);
    }

packet_if : Buffer → Option ℕ → Option RtpPacket
packet_if buf none = none
packet_if buf (some offset) = if ltb (length buf) offset then none else some (packet_at buf offset)

unfoldable pub parse_rtp_packet : Buffer → Option RtpPacket
unfolding payload_offset packet_at packet_if
parse_rtp_packet buf =
    if ltb (length buf) rtp_header_len
    then none
    else packet_if buf (
        payload_offset buf (read_uint8 buf 0 / 2 ^ 4 % 2 == 1)
          (rtp_header_len + read_uint8 buf 0 % 2 ^ 4 * 4))

pub record RtpFields : Type 0 where
  pub sequence_number : ℕ
  pub timestamp : ℕ
  pub ssrc : ℕ
  pub payload : Buffer
  pub marker : Bool
  pub payload_type : ℕ

-- `none`: `writeUInt8` throws for a payload type above 255.
unfoldable pub build_rtp_packet : RtpFields → Option Buffer
build_rtp_packet fields =
    if ltb (bit_or (if fields.marker then 128 else 0) fields.payload_type) 256
    then some (
        0x80
        ∷ bit_or (if fields.marker then 128 else 0) fields.payload_type
        ∷ (write_uint16 (fields.sequence_number % 2 ^ 16)
            ++ write_uint32 (fields.timestamp % 2 ^ 32)
            ++ write_uint32 (fields.ssrc % 2 ^ 32)
            ++ fields.payload))
    else none

-- The loop `for (i = 0; i < buf.length; i += frameSize)`, on the bytes from `i` on. `fuel` bounds
-- its rounds; `length buf` of them are enough (`Frames`).
chunk_from : ℕ → ℕ → Buffer → List Buffer
chunk_from zero frame_size buf = []
chunk_from (suc fuel) frame_size [] = []
chunk_from (suc fuel) frame_size (b ∷ buf) =
    take frame_size (b ∷ buf) ∷ chunk_from fuel frame_size (drop frame_size (b ∷ buf))

unfoldable pub chunk_into_frames : Buffer → ℕ → List Buffer
unfolding chunk_from
chunk_into_frames buf frame_size = chunk_from (length buf) frame_size buf
