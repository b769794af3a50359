-- ===== src/Packet/Frames.antt =====
-- Frames and headers of gateway/network/packet.go: what is written is read back, and how long a
-- frame may be.
use mathlib.Core.List.{append-nil}
use ki_han_server_distribute.Base.{
  ℕ, zero, suc, ◌+◌, ◌-◌, ◌*◌, ◌/◌, ◌%◌, ◌^◌, ◌≤◌, ◌<◌, true, false, none, some, [], ◌∷◌, ◌++◌, ◌≡◌,
  ◌↔◌, refl, ap, arith, ltb, leb, ◌==◌, nat_eq, length, length-append, take, drop,
}
use ki_han_server_distribute.Base.Bytes.{Bytes, be_uint32-put, put_uint16}
use ki_han_server_distribute.Packet.{
  encode_header, decode_header, zeros, copy, encode_app_frame, length_prefixed,
  decode_app_frame_header, read_full, read_payload, read_app_frame,
}

-- The header that the gateway writes, or a client, is read back, whatever comes behind it.
pub decode_header-encode_header :
    (id key p_type : ℕ) (rest : Bytes)
    → id < 2 ^ 32
    → key < 2 ^ 32
    → decode_header (encode_header id key p_type ++ rest) ≡ some (id, key, p_type)
unfolding decode_header encode_header
decode_header-encode_header id key p_type rest hi hk =
    rw (be_uint32-put id hi, be_uint32-put key hk) (ground arith)

take-all : (s : Bytes) → take (length s) s ≡ s
take-all [] = refl
take-all (b ∷ s) = ap (◌∷◌ b) (take-all s)

pub take-append : (s t : Bytes) → take (length s) (s ++ t) ≡ s
take-append [] t = refl
take-append (b ∷ s) t = ap (◌∷◌ b) (take-append s t)

pub drop-append : (s t : Bytes) → drop (length s) (s ++ t) ≡ t
drop-append [] t = refl
drop-append (b ∷ s) t = drop-append s t

length-zeros : (n : ℕ) → length (zeros n) ≡ n
length-zeros zero = refl
length-zeros (suc n) = ap suc (length-zeros n)

drop-zeros : (n m : ℕ) → n ≤ m → drop m (zeros n) ≡ []
drop-zeros zero zero h = refl
drop-zeros zero (suc m) h = refl
drop-zeros (suc n) zero h = absurd (omega arith)
drop-zeros (suc n) (suc m) h = drop-zeros n m (omega arith)

-- A copy into a new buffer of the source's length is the source.
copy-zeros : (s : Bytes) → copy (zeros (length s)) s ≡ s
copy-zeros s =
    rw (length-zeros (length s), drop-zeros (length s) (length s) (omega arith), take-all s)
      (append-nil s)

read_full-append : (s t : Bytes) → read_full (length s) (s ++ t) ≡ some (s, t)
read_full-append s t =
    let n : length (s ++ t) ≡ length s + length t = length-append s t in
    let long : leb (length s) (length s + length t) ≡ true = ground arith in
    rw (n, long, take-append s t, drop-append s t) refl

-- The frame of a command and a payload.
abbrev pub frame : ℕ → Bytes → Bytes
frame cmd_id payload = put_uint16 (suc (suc (length payload))) ++ (put_uint16 cmd_id ++ payload)

pub encode_app_frame_short :
    (cmd_id : ℕ) (payload : Bytes)
    → length payload < 65532
    → encode_app_frame cmd_id payload ≡ some (frame cmd_id payload)
unfolding encode_app_frame
encode_app_frame_short cmd_id payload h =
    let total : (2 + length payload) % 2 ^ 16 ≡ suc (suc (length payload)) = omega arith in
    let size : (2 + suc (suc (length payload))) % 2 ^ 16 ≡ 4 + length payload = omega arith in
    let fits : ltb (4 + length payload) 4 ≡ false = ground arith in
    let room : 4 + length payload - 4 ≡ length payload = omega arith in
    rw (total, size, fits, room, copy-zeros payload) refl

length_prefixed_short :
    (s : Bytes) → length s < 65534 → length_prefixed s ≡ some (put_uint16 (length s) ++ s)
unfolding length_prefixed
length_prefixed_short s h =
    let total : length s % 2 ^ 16 ≡ length s = omega arith in
    let size : (2 + length s) % 2 ^ 16 ≡ 2 + length s = omega arith in
    let fits : ltb (2 + length s) 2 ≡ false = ground arith in
    let room : 2 + length s - 2 ≡ length s = omega arith in
    rw (total, size, fits, room, copy-zeros s) refl

read_payload_lem :
    (cmd_id : ℕ) (payload rest : Bytes)
    → read_payload (suc (suc (length payload))) cmd_id (payload ++ rest)
      ≡ some ((cmd_id, payload), rest)
unfolding read_payload
read_payload_lem cmd_id [] rest = refl
read_payload_lem cmd_id (b ∷ payload) rest =
    let n = suc (length payload) in
    let long : ltb (suc (suc n)) 2 ≡ false = ground arith in
    let more : (suc (suc n) == 2) ≡ false = ground arith in
    let left : suc (suc n) - 2 ≡ n = omega arith in
    rw (long, more, left, read_full-append (b ∷ payload) rest) refl

pub read_app_frame-frame :
    (cmd_id : ℕ) (payload rest : Bytes)
    → cmd_id < 2 ^ 16
    → length payload < 65532
    → read_app_frame (frame cmd_id payload ++ rest) ≡ some ((cmd_id, payload), rest)
unfolding read_app_frame
read_app_frame-frame cmd_id payload rest hc hp =
    let total_len : (suc (suc (length payload)) / 256 % 256) * 2 ^ 8
          + suc (suc (length payload)) % 256
        ≡ suc (suc (length payload)) =
      omega arith in
    let command : (cmd_id / 256 % 256) * 2 ^ 8 + cmd_id % 256 ≡ cmd_id = omega arith in
    let here : leb 4 (suc (suc (suc (suc (length (payload ++ rest)))))) ≡ true = ground arith in
    rw here (
      unfold decode_app_frame_header in
      rw (total_len, command) (read_payload_lem cmd_id payload rest))

-- A frame of up to 65531 bytes of payload is what both writers make, and it is read back as the
-- command and the payload, with the stream behind it left as it is.
pub read_app_frame-length_prefixed :
    (cmd_id : ℕ) (payload rest : Bytes)
    → cmd_id < 2 ^ 16
    → length payload < 65532
    → (f : Bytes) × (length_prefixed (put_uint16 cmd_id ++ payload) ≡ some f)
      × (encode_app_frame cmd_id payload ≡ some f)
      × (read_app_frame (f ++ rest) ≡ some ((cmd_id, payload), rest))
read_app_frame-length_prefixed cmd_id payload rest hc hp = (
  frame cmd_id payload,
  length_prefixed_short (put_uint16 cmd_id ++ payload) (omega arith),
  encode_app_frame_short cmd_id payload hp,
  read_app_frame-frame cmd_id payload rest hc hp,
)

-- The writers' buffers are sized by 16-bit arithmetic. The frame of `Send` panics exactly when the
-- length of the command with its payload, taken modulo 2 ^ 16, is 65534 or 65535, and EncodeAppFrame
-- exactly when that of the payload, taken modulo 2 ^ 16, is 65532 or more.
pub length_prefixed_panics :
    (s : Bytes) (cmd_id : ℕ)
    → ((length_prefixed s ≡ none) ↔ (65534 ≤ length s % 2 ^ 16))
      × ((encode_app_frame cmd_id s ≡ none) ↔ (65532 ≤ length s % 2 ^ 16))
unfolding length_prefixed encode_app_frame
length_prefixed_panics s cmd_id = ground arith
