-- ===== src/Packet.antt =====
-- gateway/network/packet.go: the header of a datagram and the frames of a KCP stream. Go's
-- arithmetic on a uint16 wraps; a slice that is too short for what is written is a panic, `none`.
pub mod Frames
pub mod Headers
use ki_han_server_distribute.Base.{
  ℕ, zero, suc, ◌+◌, ◌-◌, ◌%◌, ◌*◌, ◌^◌, Option, none, some, List, [], ◌∷◌, ◌++◌, ltb, leb,
  if◌then◌else◌, ◌==◌, nat_eq, length, take, drop,
}
use ki_han_server_distribute.Base.Bytes.{Bytes, be_uint32, put_uint16, put_uint32}

abbrev pub packet_type_handshake : ℕ
packet_type_handshake = 0

abbrev pub packet_type_kcp : ℕ
packet_type_kcp = 1

abbrev pub packet_type_raw_udp : ℕ
packet_type_raw_udp = 2

abbrev pub header_size : ℕ
header_size = 9

abbrev pub app_header_size : ℕ
app_header_size = 4

unfoldable pub encode_header : ℕ → ℕ → ℕ → Bytes
encode_header id key p_type = put_uint32 id ++ (put_uint32 key ++ p_type ∷ [])

-- `binary.BigEndian.Uint32`, of a slice of four bytes at least.
abbrev pub uint32_at : Bytes → ℕ
uint32_at (b0 ∷ b1 ∷ b2 ∷ b3 ∷ rest) = be_uint32 b0 b1 b2 b3
uint32_at _ = 0

abbrev pub uint16_at : Bytes → ℕ
uint16_at (b0 ∷ b1 ∷ rest) = b0 * 2 ^ 8 + b1
uint16_at _ = 0

abbrev pub byte_at : Bytes → ℕ
byte_at [] = 0
byte_at (b ∷ rest) = b

unfoldable pub decode_header : Bytes → Option (ℕ × ℕ × ℕ)
decode_header buf =
    if ltb (length buf) header_size
    then none
    else some (uint32_at buf, uint32_at (drop 4 buf), byte_at (drop 8 buf))

abbrev pub zeros : ℕ → Bytes
zeros zero = []
zeros (suc n) = 0 ∷ zeros n

-- `copy(dst, src)`: as much of the source as fits, and the rest of the destination.
abbrev pub copy : Bytes → Bytes → Bytes
copy dst src = take (length dst) src ++ drop (length src) dst

unfoldable pub encode_app_frame : ℕ → Bytes → Option Bytes
encode_app_frame cmd_id payload =
    let total_len = (2 + length payload) % 2 ^ 16 in
    let size = (2 + total_len) % 2 ^ 16 in
    if ltb size 4
    then none
    else some (put_uint16 total_len ++ (put_uint16 cmd_id ++ copy (zeros (size - 4)) payload))

-- The frame that `Session.Send` writes to KCP, around the command and the payload.
unfoldable pub length_prefixed : Bytes → Option Bytes
length_prefixed bytes =
    let total_len = length bytes % 2 ^ 16 in
    let size = (2 + total_len) % 2 ^ 16 in
    if ltb size 2 then none else some (put_uint16 total_len ++ copy (zeros (size - 2)) bytes)

unfoldable pub decode_app_frame_header : Bytes → Option (ℕ × ℕ)
decode_app_frame_header buf =
    if ltb (length buf) app_header_size then none else some (uint16_at buf, uint16_at (drop 2 buf))

-- `io.ReadFull` of a reader that ends behind the given bytes.
abbrev pub read_full : ℕ → Bytes → Option (Bytes × Bytes)
read_full n r = if leb n (length r) then some (take n r, drop n r) else none

infixl 5 ◌>>=◌
abbrev ◌>>=◌ {ℓ κ} : {A : Type ℓ} {B : Type κ} → Option A → (A → Option B) → Option B
none >>= f = none
some a >>= f = f a

read_payload : ℕ → ℕ → Bytes → Option ((ℕ × Bytes) × Bytes)
read_payload total_len cmd_id r =
    if ltb total_len 2
    then none
    else if total_len == 2
    then some ((cmd_id, []), r)
    else (do (payload, rest) ← read_full (total_len - 2) r; some ((cmd_id, payload), rest))

-- The command and payload of one frame, and what the reader has behind it. `none` is an error.
unfoldable pub read_app_frame : Bytes → Option ((ℕ × Bytes) × Bytes)
unfolding decode_app_frame_header read_payload
read_app_frame r = do
  (header, r') ← read_full app_header_size r
  (total_len, cmd_id) ← decode_app_frame_header header
  read_payload total_len cmd_id r'

-- The frames that the loop over a stream reads, up to the first that cannot be read. Each takes four
-- bytes or more, so the length of the stream is fuel enough.
unfoldable pub read_frames : ℕ → Bytes → List (ℕ × Bytes)
read_frames zero r = []
read_frames (suc n) r = elim (read_app_frame r) [
  | none ↦ []
  | some (frame, rest) ↦ frame ∷ read_frames n rest
]
