-- ===== src/Media/Bytes.antt =====
-- The operations of a Node `Buffer` that the codec uses. A buffer is the list of its bytes.
-- Reads are those whose offset the caller has checked, so what they give past the end, 0, is never
-- used; writes are of values that the caller has masked to the width.
use textbee_gateway.Prelude.{ℕ, ◌+◌, ◌-◌, ◌*◌, ◌/◌, ◌%◌, ◌<◌, List, [], ◌∷◌, get_or, take, drop}

abbrev pub Buffer : Type 0
Buffer = List ℕ

abbrev pub IsByte : ℕ → Type 0
IsByte b = b < 256

abbrev pub read_uint8 : Buffer → ℕ → ℕ
read_uint8 buf i = get_or buf i 0

abbrev pub read_uint16 : Buffer → ℕ → ℕ
read_uint16 buf i = get_or buf i 0 * 256 + get_or buf (i + 1) 0

abbrev pub read_uint32 : Buffer → ℕ → ℕ
read_uint32 buf i = read_uint16 buf i * 65536 + read_uint16 buf (i + 2)

abbrev pub write_uint16 : ℕ → Buffer
write_uint16 v = v / 256 ∷ v % 256 ∷ []

abbrev pub write_uint32 : ℕ → Buffer
write_uint32 v = v / 16777216 ∷ v / 65536 % 256 ∷ v / 256 % 256 ∷ v % 256 ∷ []

-- `buf.subarray(from, to)`
abbrev pub subarray : Buffer → ℕ → ℕ → Buffer
subarray buf from to = take (to - from) (drop from buf)
