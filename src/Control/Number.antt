-- ===== src/Control/Number.antt =====
-- `std::stoul` reads back what `std::to_string` prints.
use mathlib.Core.List.{append_assoc, append-nil}
use ki_han_server_distribute.Base.{
  ℕ, zero, suc, ◌+◌, ◌-◌, ◌*◌, ◌/◌, ◌%◌, ◌^◌, ◌<◌, Bool, true, false, Option, some, [], ◌∷◌, ◌++◌,
  ◌≡◌, refl, ◌∙◌, arith, Bool-cases, inl, inr, ltb, leb,
}
use native.Mathlib.Nat.{pow-suc}
use ki_han_server_distribute.Base.Bytes.{Bytes, decimal, to_string}
use ki_han_server_distribute.Control.{stoul, read_digits, is_digit, is_space, read_signed, in_range}

one_digit :
    (seen : Bool) (acc d : ℕ) (rest : Bytes)
    → d < 10
    → read_digits seen acc ((b'0' + d) ∷ rest) ≡ read_digits true (acc * 10 + d) rest
unfolding read_digits is_digit
one_digit seen acc d rest h = let digit : 48 + d - 48 ≡ d = omega arith in rw digit (ground arith)

pub tenth : (f n : ℕ) → n < 10 ^ suc (suc f) → n / 10 < 10 ^ suc f
tenth f n h =
    let e : 10 ^ suc (suc f) ≡ 10 ^ suc f * 10 = pow-suc 10 (suc f) in
    let below : n < 10 ^ suc f * 10 = rw (← e) h in omega arith

from_nothing :
    {got : Option ℕ} (n : ℕ) (rest : Bytes)
    → got ≡ read_digits true (0 * 10 + n) rest
    → got ≡ read_digits true n rest
from_nothing n rest e = let none_before : 0 * 10 + n ≡ n = omega arith in rw (← none_before) e

read_digits-decimal :
    (f : ℕ) (seen : Bool) (n : ℕ) (rest : Bytes)
    → n < 10 ^ suc f
    → read_digits seen 0 (decimal (suc f) n ++ rest) ≡ read_digits true n rest
unfolding decimal
read_digits-decimal zero seen n rest h =
    let short : ltb n 10 ≡ true = ground arith in
    rw short (from_nothing n rest (one_digit seen 0 n rest h))
read_digits-decimal (suc f) seen n rest h = elim (Bool-cases (ltb n 10)) [
  | inl short ↦ rw short (from_nothing n rest (one_digit seen 0 n rest (ground arith)))
  | inr long ↦
      let front : n / 10 < 10 ^ suc f = tenth f n h in
      let whole : n / 10 * 10 + n % 10 ≡ n = omega arith in
      rw
        (
          long,
          append_assoc (decimal (suc f) (n / 10)) ((b'0' + n % 10) ∷ []) rest,
          read_digits-decimal f seen (n / 10) ((b'0' + n % 10) ∷ rest) front,
          one_digit true (n / 10) (n % 10) rest (omega arith),
          whole,
        )
        refl
]

pub digit_first :
    (f n : ℕ)
    → n < 10 ^ suc f
    → (d : ℕ) × (rest : Bytes) × (d < 10) × (decimal (suc f) n ≡ (b'0' + d) ∷ rest)
unfolding decimal
digit_first zero n h = let short : ltb n 10 ≡ true = ground arith in (n, [], h, rw short refl)
digit_first (suc f) n h = elim (Bool-cases (ltb n 10)) [
  | inl short ↦ (n, [], ground arith, rw short refl)
  | inr long ↦
      let (d, rest, small, e) = digit_first f (n / 10) (tenth f n h) in
      (d, rest ++ (b'0' + n % 10) ∷ [], small, rw (long, e) refl)
]

stoul-digits :
    (d : ℕ) (s : Bytes)
    → d < 10
    → stoul ((b'0' + d) ∷ s) ≡ in_range false (read_digits false 0 ((b'0' + d) ∷ s))
unfolding stoul is_space read_signed
stoul-digits d s h = ground arith

read_all : (n : ℕ) → n < 10 ^ 10 → read_digits false 0 (decimal 10 n) ≡ some n
unfolding read_digits
read_all n h = rw (← append-nil (decimal 10 n)) (read_digits-decimal 9 false n [] h ∙ refl)

-- `std::stoul`, as the control server calls it, reads back what `std::to_string` prints.
pub stoul-to_string : (n : ℕ) → n < 2 ^ 32 → stoul (to_string n) ≡ some n
unfolding to_string in_range
stoul-to_string n h =
    let (d, rest, small, e) = digit_first 9 n (omega arith) in
    let fits : leb (2 ^ 64) n ≡ false = ground arith in
    let read : read_digits false 0 ((b'0' + d) ∷ rest) ≡ some n =
      rw (← e) (read_all n (omega arith)) in
    rw (e, stoul-digits d rest small, read, fits) refl
