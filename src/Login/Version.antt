-- ===== src/Login/Version.antt =====
-- CompareVersion of login_server/main.go.
use ki_han_server_distribute.Base.{
  ℕ, zero, suc, ◌+◌, ◌-◌, ◌*◌, ◌^◌, ◌<◌, ℤ, pos, negsuc, Bool, true, false, ◌&&◌, Option, none,
  some, List, [], ◌∷◌, ltb, leb, if◌then◌else◌, ◌==◌, not, nat_eq, ◌≡◌, refl, ap, ◌⊎◌, inl, inr,
  arith, Bool-cases,
}
use ki_han_server_distribute.Base.Bytes.{Bytes}

-- `strings.Split(s, ".")`
cons_head : ℕ → List Bytes → List Bytes
cons_head c [] = (c ∷ []) ∷ []
cons_head c (part ∷ parts) = (c ∷ part) ∷ parts

unfoldable pub split_dots : Bytes → List Bytes
unfolding cons_head
split_dots [] = [] ∷ []
split_dots (c ∷ s) = let rest = split_dots s in if c == b'.' then [] ∷ rest else cons_head c rest

-- The digits that `strconv.Atoi` reads, up to 2 ^ 64 - 1; `none` is a syntax error.
scan_uint : ℕ → Bytes → Option ℕ
scan_uint n [] = some n
scan_uint n (c ∷ s) =
    let n' = n * 10 + (c - b'0') in
    let rest = scan_uint n' s in
    if not (leb b'0' c && leb c b'9')
    then none
    else if leb (2 ^ 64) n'
    then some (2 ^ 64 - 1)
    else rest

magnitude : Bytes → Option ℕ
unfolding scan_uint
magnitude [] = none
magnitude (c ∷ s) = scan_uint 0 (c ∷ s)

-- The int of 64 bits next to a number, or 0 after a syntax error.
clip_pos : Option ℕ → ℤ
clip_pos none = pos 0
clip_pos (some n) = if leb (2 ^ 63) n then pos (2 ^ 63 - 1) else pos n

clip_neg : Option ℕ → ℤ
clip_neg none = pos 0
clip_neg (some n) =
    if n == 0 then pos 0 else if ltb (2 ^ 63) n then negsuc (2 ^ 63 - 1) else negsuc (n - 1)

-- The number that `strconv.Atoi` returns, whose error is not looked at.
unfoldable pub atoi : Bytes → ℤ
unfolding magnitude clip_pos clip_neg
atoi [] = pos 0
atoi (c ∷ s) =
    if c == b'-'
    then clip_neg (magnitude s)
    else if c == b'+'
    then clip_pos (magnitude s)
    else clip_pos (magnitude (c ∷ s))

abbrev pub int_ltb : ℤ → ℤ → Bool
int_ltb (pos a) (pos b) = ltb a b
int_ltb (pos a) (negsuc b) = false
int_ltb (negsuc a) (pos b) = true
int_ltb (negsuc a) (negsuc b) = ltb b a

-- One round of the loop of CompareVersion, with what the rounds behind it return.
unfoldable pub compare_part : ℤ → ℤ → ℤ → ℤ
compare_part x y rest = if int_ltb y x then pos 1 else if int_ltb x y then negsuc 0 else rest

unfoldable pub compare_parts : List Bytes → List Bytes → ℤ
unfolding compare_part atoi
compare_parts [] [] = pos 0
compare_parts [] (b ∷ ys) = compare_part (pos 0) (atoi b) (compare_parts [] ys)
compare_parts (a ∷ xs) [] = compare_part (atoi a) (pos 0) (compare_parts xs [])
compare_parts (a ∷ xs) (b ∷ ys) = compare_part (atoi a) (atoi b) (compare_parts xs ys)

unfoldable pub compare_version : Bytes → Bytes → ℤ
unfolding compare_parts split_dots
compare_version v1 v2 = compare_parts (split_dots v1) (split_dots v2)

-- The number at a place of a version; behind the last part it is 0.
pub part : List Bytes → ℕ → ℤ
part [] i = pos 0
part (a ∷ xs) zero = atoi a
part (a ∷ xs) (suc i) = part xs i

-- What an answer of the comparison says of the two versions.
pub Answers : (ℕ → ℤ) → (ℕ → ℤ) → ℤ → Type 0
Answers v w c =
    ((c ≡ pos 0) × ((i : ℕ) → v i ≡ w i))
    ⊎ ((i : ℕ) × ((j : ℕ) → j < i → v j ≡ w j)
        × (((c ≡ pos 1) × (int_ltb (w i) (v i) ≡ true))
            ⊎ ((c ≡ negsuc 0) × (int_ltb (v i) (w i) ≡ true))))

int_equal : (x y : ℤ) → int_ltb x y ≡ false → int_ltb y x ≡ false → x ≡ y
int_equal (pos a) (pos b) h k = ap pos (ground arith)
int_equal (pos a) (negsuc b) h k = cc
int_equal (negsuc a) (pos b) h k = cc
int_equal (negsuc a) (negsuc b) h k = ap negsuc (ground arith)

tail_of : (ℕ → ℤ) → ℕ → ℤ
tail_of v i = v (suc i)

each : (P : ℕ → Type 0) → P 0 → ((i : ℕ) → P (suc i)) → (i : ℕ) → P i
each P z s zero = z
each P z s (suc i) = s i

compare_part-Answers :
    (v w : ℕ → ℤ) (rest : ℤ)
    → Answers (tail_of v) (tail_of w) rest
    → Answers v w (compare_part (v 0) (w 0) rest)
unfolding Answers compare_part tail_of
compare_part-Answers v w rest a = elim (Bool-cases (int_ltb (w 0) (v 0))) [
  | inl newer ↦ rw newer (inr (0, (λ j h. absurd (omega arith)), inl (refl, newer)))
  | inr other ↦ elim (Bool-cases (int_ltb (v 0) (w 0))) [
    | inl older ↦ rw (other, older) (inr (0, (λ j h. absurd (omega arith)), inr (refl, older)))
    | inr same ↦
        let e : v 0 ≡ w 0 = int_equal (v 0) (w 0) same other in
        rw (other, same)
          (elim a [
            | inl (c, all) ↦ inl (c, each (λ i. v i ≡ w i) e all)
            | inr (i, before, at_i) ↦ inr (
              suc i,
              each (λ j. j < suc i → v j ≡ w j) (λ h. e) (λ j h. before j (omega arith)),
              at_i,
            )
          ])
  ]
]

compare_parts-Answers : (xs ys : List Bytes) → Answers (part xs) (part ys) (compare_parts xs ys)
unfolding compare_parts part tail_of
compare_parts-Answers [] [] = unfold Answers in inl (refl, λ i. refl)
compare_parts-Answers [] (b ∷ ys) =
    compare_part-Answers (part []) (part (b ∷ ys)) (compare_parts [] ys)
      (compare_parts-Answers [] ys)
compare_parts-Answers (a ∷ xs) [] =
    compare_part-Answers (part (a ∷ xs)) (part []) (compare_parts xs [])
      (compare_parts-Answers xs [])
compare_parts-Answers (a ∷ xs) (b ∷ ys) =
    compare_part-Answers (part (a ∷ xs)) (part (b ∷ ys)) (compare_parts xs ys)
      (compare_parts-Answers xs ys)

-- CompareVersion answers 0 when the numbers of the two versions agree at every place, and
-- otherwise 1 or -1 as the first version has the larger or the smaller number at the first place
-- where they differ; a version that is too short has 0 at the places behind its end.
pub compare_version_lem :
    (v1 v2 : Bytes) → Answers (part (split_dots v1)) (part (split_dots v2)) (compare_version v1 v2)
unfolding compare_version
compare_version_lem v1 v2 = compare_parts-Answers (split_dots v1) (split_dots v2)
