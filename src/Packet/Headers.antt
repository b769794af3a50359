-- ===== src/Packet/Headers.antt =====
-- The header of a datagram in gateway/network/packet.go as a bijection: its fields on one side, nine
-- bytes on the other.
use mathlib.Core.Equiv.{IsEquiv, Iso, iso_to_equiv}
use native.Mathlib.Bridge.{le_prop}
use mathlib.Core.HLevel.{Σ_prop_path, ×_prop}
use ki_han_server_distribute.Base.{
  ℕ, zero, suc, ◌+◌, ◌-◌, ◌*◌, ◌/◌, ◌%◌, ◌^◌, ◌≤◌, ◌<◌, some, [], ◌∷◌, ◌++◌, ◌≡◌, refl, ap, sym,
  ◌∙◌, arith, nat_eq, length, drop, All,
}
use ki_han_server_distribute.Base.Bytes.{
  Bytes, IsByte, be_uint32, be_uint32-eq, be_uint32-put, put_uint32,
}
use ki_han_server_distribute.Packet.Frames.{decode_header-encode_header}
use ki_han_server_distribute.Packet.{header_size, encode_header, decode_header, uint32_at, byte_at}

abbrev pub Word : ℕ → Type 0
Word w = (n : ℕ) × (n < 2 ^ w)

-- A session's id and key, and the type of the packet.
abbrev pub Fields : Type 0
Fields = Word 32 × (Word 32 × Word 8)

abbrev pub IsHeader : Bytes → Type 0
IsHeader bs = (length bs ≡ header_size) × All IsByte bs

abbrev pub Header : Type 0
Header = (bs : Bytes) × IsHeader bs

All-IsByte-IsProp : (bs : Bytes) → IsProp (All IsByte bs)
All-IsByte-IsProp [] = hlevel
All-IsByte-IsProp (b ∷ bs) = ×_prop le_prop (All-IsByte-IsProp bs)

IsHeader-IsProp : (bs : Bytes) → IsProp (IsHeader bs)
IsHeader-IsProp bs = ×_prop (hlevel) (All-IsByte-IsProp bs)

Word-path : (w : ℕ) (a b : Word w) → a.0 ≡ b.0 → a ≡ b
Word-path w a b e = Σ_prop_path (λ n. le_prop) e

put-be_uint32 :
    (b0 b1 b2 b3 : ℕ)
    → IsByte b0
    → IsByte b1
    → IsByte b2
    → IsByte b3
    → put_uint32 (be_uint32 b0 b1 b2 b3) ≡ b0 ∷ b1 ∷ b2 ∷ b3 ∷ []
put-be_uint32 b0 b1 b2 b3 h0 h1 h2 h3 =
    let n = b0 * 2 ^ 24 + b1 * 2 ^ 16 + b2 * 2 ^ 8 + b3 in
    let e0 : n / 2 ^ 24 % 256 ≡ b0 = omega arith in
    let e1 : n / 2 ^ 16 % 256 ≡ b1 = omega arith in
    let e2 : n / 2 ^ 8 % 256 ≡ b2 = omega arith in
    let e3 : n % 256 ≡ b3 = omega arith in
    rw (be_uint32-eq b0 b1 b2 b3 h1 h2 h3, e0, e1, e2, e3) refl

uint32-small : (bs : Bytes) → All IsByte bs → uint32_at bs < 2 ^ 32
uint32-small (b0 ∷ b1 ∷ b2 ∷ b3 ∷ bs) (h0, (h1, (h2, (h3, hs)))) =
    rw (be_uint32-eq b0 b1 b2 b3 h1 h2 h3) (omega arith)
uint32-small (b0 ∷ b1 ∷ b2 ∷ []) h = omega arith
uint32-small (b0 ∷ b1 ∷ []) h = omega arith
uint32-small (b0 ∷ []) h = omega arith
uint32-small [] h = omega arith

-- Four bytes are the big-endian form of the word that is read from them.
put-uint32_at :
    (bs : Bytes) → 4 ≤ length bs → All IsByte bs → put_uint32 (uint32_at bs) ++ drop 4 bs ≡ bs
put-uint32_at (b0 ∷ b1 ∷ b2 ∷ b3 ∷ bs) h (h0, (h1, (h2, (h3, hs)))) =
    ap (λ front. front ++ bs) (put-be_uint32 b0 b1 b2 b3 h0 h1 h2 h3)
put-uint32_at (b0 ∷ b1 ∷ b2 ∷ []) h hs = ground arith
put-uint32_at (b0 ∷ b1 ∷ []) h hs = ground arith
put-uint32_at (b0 ∷ []) h hs = ground arith
put-uint32_at [] h hs = ground arith

drop-IsByte : (n : ℕ) (bs : Bytes) → All IsByte bs → All IsByte (drop n bs)
drop-IsByte zero bs h = h
drop-IsByte (suc n) [] h = h
drop-IsByte (suc n) (b ∷ bs) h = drop-IsByte n bs h.1

length-drop : (n : ℕ) (bs : Bytes) → length (drop n bs) ≡ length bs - n
length-drop zero bs = omega arith
length-drop (suc n) [] = omega arith
length-drop (suc n) (b ∷ bs) = length-drop n bs ∙ omega arith

one_byte : (bs : Bytes) → length bs ≡ 1 → bs ≡ byte_at bs ∷ []
one_byte [] e = ground arith
one_byte (b ∷ []) e = refl
one_byte (b ∷ c ∷ bs) e = ground arith

byte-small : (bs : Bytes) → All IsByte bs → byte_at bs < 2 ^ 8
byte-small [] h = omega arith
byte-small (b ∷ bs) h = h.0

-- EncodeHeader on words that fit, with the proof that it writes nine bytes.
pub header_of : Fields → Header
unfolding encode_header
header_of ((id, hi), ((key, hk), (p_type, ht))) =
    (encode_header id key p_type, (refl, ground arith))

-- The fields that DecodeHeader reads from nine bytes.
pub fields_of : Header → Fields
fields_of (bs, (e, h)) = (
  (uint32_at bs, uint32-small bs h),
  (
    (uint32_at (drop 4 bs), uint32-small (drop 4 bs) (drop-IsByte 4 bs h)),
    (byte_at (drop 8 bs), byte-small (drop 8 bs) (drop-IsByte 8 bs h)),
  ),
)

drop_again : (bs : Bytes) → drop 4 (drop 4 bs) ≡ drop 8 bs
drop_again [] = refl
drop_again (_ ∷ []) = refl
drop_again (_ ∷ _ ∷ []) = refl
drop_again (_ ∷ _ ∷ _ ∷ []) = refl
drop_again (_ ∷ _ ∷ _ ∷ _ ∷ bs) = refl

-- Nine bytes are the header of what is read from them.
header_bytes :
    (bs : Bytes)
    → IsHeader bs
    → encode_header (uint32_at bs) (uint32_at (drop 4 bs)) (byte_at (drop 8 bs)) ≡ bs
unfolding encode_header
header_bytes bs (e, h) =
    let put : Bytes → Bytes → Bytes = λ four rest. put_uint32 (uint32_at four) ++ rest in
    let four = length-drop 4 bs in
    let last = one_byte (drop 8 bs) (length-drop 8 bs ∙ omega arith) in
    ap (λ rest. put bs (put (drop 4 bs) rest)) (sym last ∙ sym (drop_again bs))
    ∙ ap (put bs) (put-uint32_at (drop 4 bs) (omega arith) (drop-IsByte 4 bs h))
    ∙ put-uint32_at bs (omega arith) h

Fields-path : (f g : Fields) → f.0.0 ≡ g.0.0 → f.1.0.0 ≡ g.1.0.0 → f.1.1.0 ≡ g.1.1.0 → f ≡ g
Fields-path f g e e' e'' =
    λ i. (Word-path 32 f.0 g.0 e i, (Word-path 32 f.1.0 g.1.0 e' i, Word-path 8 f.1.1 g.1.1 e'' i))

header_iso : Iso Fields Header
unfolding header_of fields_of encode_header
header_iso = record {
  fun = header_of;
  inv = fields_of;
  rinv = λ h. Σ_prop_path IsHeader-IsProp (header_bytes h.0 h.1);
  linv = λ f.
      Fields-path (fields_of (header_of f)) f (be_uint32-put f.0.0 f.0.1)
        (be_uint32-put f.1.0.0 f.1.0.1) refl;
}

-- EncodeHeader is an equivalence between the fields of a header, an id and a key of 32 bits and a
-- packet type of 8, and the strings of nine bytes: any nine bytes are the header of exactly one such
-- triple. That triple is what DecodeHeader reads from them, whatever comes behind.
pub encode_header-IsEquiv :
    IsEquiv header_of
    × ((h : Header) (rest : Bytes)
        → let ((id, _), ((key, _), (p_type, _))) = fields_of h in
          decode_header (h.0 ++ rest) ≡ some (id, key, p_type))
unfolding fields_of header_iso
encode_header-IsEquiv = (
  (iso_to_equiv header_iso).1,
  λ h rest.
      let ((_, id_small), ((_, key_small), _)) = fields_of h in
      ap (λ bs. decode_header (bs ++ rest)) (sym (header_bytes h.0 h.1))
      ∙ decode_header-encode_header _ _ _ rest id_small key_small,
)
