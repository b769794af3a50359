-- ===== src/Base/Bytes.antt =====
-- `std::string` as a list of bytes: literals, big-endian words, `std::to_string`.
use Prim.Native.Nat.{ℕ, zero, suc, ◌+◌, ◌*◌, ◌/◌, ◌%◌, ◌^◌, ◌<◌, bit_or}
use Prim.Native.Char.{code}
use Prim.Native.String.{String}
use mathlib.Core.Path.{◌≡◌, refl}
use mathlib.Core.List.{List, [], ◌∷◌, ◌++◌}
use native.Mathlib.Omega.{arith}
use mathlib.Core.Bool.{Bool, true, false}
use mathlib.Core.Path.{◌∙◌}
use mathlib.Core.Logic.{◌↔◌}
use ki_han_server_distribute.Base.Tests.{ltb, if◌then◌else◌, ◌==◌, KeyEq, nat_eq, nat_beq_iff}
use ki_han_server_distribute.Base.Int.{ℤ, pos, negsuc}
use ki_han_server_distribute.Base.Bits.{bit_or_disjoint}

abbrev pub Bytes : Type 0
Bytes = List ℕ

abbrev pub IsByte : ℕ → Type 0
IsByte b = b < 256

-- An ASCII literal of the source.
abbrev pub codes : String → Bytes
codes String.[] = []
codes (String.◌∷◌ c s) = code c ∷ codes s

-- `b0 << 24 | b1 << 16 | b2 << 8 | b3` over four bytes.
unfoldable pub be_uint32 : ℕ → ℕ → ℕ → ℕ → ℕ
be_uint32 b0 b1 b2 b3 = bit_or (bit_or (bit_or (b0 * 2 ^ 24) (b1 * 2 ^ 16)) (b2 * 2 ^ 8)) b3

pub be_uint32-eq :
    (b0 b1 b2 b3 : ℕ)
    → IsByte b1
    → IsByte b2
    → IsByte b3
    → be_uint32 b0 b1 b2 b3 ≡ b0 * 2 ^ 24 + b1 * 2 ^ 16 + b2 * 2 ^ 8 + b3
unfolding be_uint32
be_uint32-eq b0 b1 b2 b3 h1 h2 h3 =
    let top : b0 * 2 ^ 24 + b1 * 2 ^ 16 ≡ (b0 * 2 ^ 8 + b1) * 2 ^ 16 = omega arith in
    let mid : (b0 * 2 ^ 8 + b1) * 2 ^ 16 + b2 * 2 ^ 8 ≡ (b0 * 2 ^ 16 + b1 * 2 ^ 8 + b2) * 2 ^ 8 =
      omega arith in
    rw
      (
        bit_or_disjoint 24 b0 (b1 * 2 ^ 16) (omega arith),
        top,
        bit_or_disjoint 16 (b0 * 2 ^ 8 + b1) (b2 * 2 ^ 8) (omega arith),
        mid,
        bit_or_disjoint 8 (b0 * 2 ^ 16 + b1 * 2 ^ 8 + b2) b3 h3,
      )
      refl

-- The decimal digits of a number below 10 ^ fuel.
unfoldable pub decimal : ℕ → ℕ → Bytes
decimal zero n = []
decimal (suc f) n =
    let front = decimal f (n / 10) in
    if ltb n 10 then (b'0' + n) ∷ [] else front ++ (b'0' + n % 10) ∷ []

-- `std::to_string` of a `uint32_t`, which has ten digits at most.
unfoldable pub to_string : ℕ → Bytes
unfolding decimal
to_string n = decimal 10 n

-- `std::to_string` of an `int32_t`.
unfoldable pub to_string_int : ℤ → Bytes
unfolding to_string
to_string_int (pos n) = to_string n
to_string_int (negsuc n) = b'-' ∷ to_string (suc n)

-- Go and C++ compare texts byte by byte.
abbrev pub bytes_beq : Bytes → Bytes → Bool
bytes_beq [] [] = true
bytes_beq [] (b ∷ bs) = false
bytes_beq (a ∷ as') [] = false
bytes_beq (a ∷ as') (b ∷ bs) = let rest = bytes_beq as' bs in if a == b then rest else false

pub bytes_beq_iff : (a b : Bytes) → (bytes_beq a b ≡ true) ↔ (a ≡ b)
bytes_beq_iff [] [] = ground arith
bytes_beq_iff [] (b ∷ bs) = ground arith
bytes_beq_iff (a ∷ as') [] = ground arith
bytes_beq_iff (a ∷ as') (b ∷ bs) = ground (arith, bytes_beq_iff as' bs, nat_beq_iff a b)

instance abbrev pub bytes_eq : KeyEq Bytes
bytes_eq = record { equal = bytes_beq; equal_iff = bytes_beq_iff }

-- The big-endian bytes of a word, as `binary.BigEndian` writes them.
abbrev pub put_uint16 : ℕ → Bytes
put_uint16 n = (n / 2 ^ 8 % 256) ∷ (n % 256) ∷ []

abbrev pub put_uint32 : ℕ → Bytes
put_uint32 n = (n / 2 ^ 24 % 256) ∷ (n / 2 ^ 16 % 256) ∷ (n / 2 ^ 8 % 256) ∷ (n % 256) ∷ []

pub be_uint32-put :
    (n : ℕ)
    → n < 2 ^ 32
    → be_uint32 (n / 2 ^ 24 % 256) (n / 2 ^ 16 % 256) (n / 2 ^ 8 % 256) (n % 256) ≡ n
be_uint32-put n h =
    be_uint32-eq (n / 2 ^ 24 % 256) (n / 2 ^ 16 % 256) (n / 2 ^ 8 % 256) (n % 256) (omega arith)
      (omega arith) (omega arith)
    ∙ omega arith
