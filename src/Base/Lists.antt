-- ===== src/Base/Lists.antt =====
-- Lists measured by native numbers, and membership by an equality test.
use Prim.Native.Nat.{ℕ, zero, suc, ◌+◌}
use mathlib.Core.Path.{◌≡◌, refl}
use mathlib.Core.Bool.{Bool, false, ◌||◌}
use mathlib.Core.List.{List, [], ◌∷◌, ◌++◌}
use mathlib.Core.Option.{Option, none, some}
use native.Mathlib.Omega.{arith}
use ki_han_server_distribute.Base.Tests.{KeyEq, ◌==◌, ==_refl, if◌then◌else◌}

module _ {ℓ} {A : Type ℓ} where
  abbrev pub length : List A → ℕ
  length [] = 0
  length (x ∷ xs) = suc (length xs)

  pub length-append : (xs ys : List A) → length (xs ++ ys) ≡ length xs + length ys
  length-append [] ys = omega arith
  length-append (x ∷ xs) ys = omega (arith, length-append xs ys)

  abbrev pub take : ℕ → List A → List A
  take zero xs = []
  take (suc n) [] = []
  take (suc n) (x ∷ xs) = x ∷ take n xs

  abbrev pub drop : ℕ → List A → List A
  drop zero xs = xs
  drop (suc n) [] = []
  drop (suc n) (x ∷ xs) = drop n xs

  abbrev pub head? : List A → Option A
  head? [] = none
  head? (x ∷ xs) = some x

  abbrev pub All {κ} : (A → Type κ) → List A → Type κ
  All P [] = Unit {κ}
  All P (x ∷ xs) = P x × All P xs

module _ {ℓ} {A : Type ℓ} ⦃e : KeyEq A⦄ where
  -- Whether the value stands in the list.
  unfoldable pub elem : A → List A → Bool
  elem a [] = false
  elem a (x ∷ xs) = x == a || elem a xs

  -- No value stands twice.
  abbrev pub Distinct : List A → Type 0
  Distinct [] = Unit {0}
  Distinct (x ∷ xs) = (elem x xs ≡ false) × Distinct xs

  pub elem-append : (a : A) (xs ys : List A) → elem a (xs ++ ys) ≡ (elem a xs || elem a ys)
  unfolding elem
  elem-append a [] ys = refl
  elem-append a (x ∷ xs) ys = ground (arith, elem-append a xs ys)

  pub elem-snoc : (a x : A) (xs : List A) → elem a (xs ++ x ∷ []) ≡ (x == a || elem a xs)
  unfolding elem
  elem-snoc a x xs = ground (arith, elem-append a xs (x ∷ []))

  pub Distinct-snoc :
      (x : A) (xs : List A) → elem x xs ≡ false → Distinct xs → Distinct (xs ++ x ∷ [])
  unfolding elem
  Distinct-snoc x [] n d = (refl, tt)
  Distinct-snoc x (y ∷ ys) n d = (
    ground (arith, elem-snoc y x ys, e.equal_iff x y, e.equal_iff y x, ==_refl x),
    Distinct-snoc x ys (ground arith) d.1,
  )

  -- Erases the first occurrence, as a loop that erases and breaks does.
  unfoldable pub erase_first : A → List A → List A
  erase_first a [] = []
  erase_first a (x ∷ xs) = if x == a then xs else x ∷ erase_first a xs

  pub elem-erase_first_ne :
      (a b : A) (xs : List A) → (a == b) ≡ false → elem b (erase_first a xs) ≡ elem b xs
  unfolding elem erase_first
  elem-erase_first_ne a b [] h = refl
  elem-erase_first_ne a b (x ∷ xs) h =
      ground
        (arith, elem-erase_first_ne a b xs h, e.equal_iff x a, e.equal_iff x b, e.equal_iff a b)

  pub elem-erase_first : (a : A) (xs : List A) → Distinct xs → elem a (erase_first a xs) ≡ false
  unfolding elem erase_first
  elem-erase_first a [] d = refl
  elem-erase_first a (x ∷ xs) d = ground (arith, elem-erase_first a xs d.1, e.equal_iff x a)

  elem-erase_first_le :
      (a b : A) (xs : List A) → elem b xs ≡ false → elem b (erase_first a xs) ≡ false
  unfolding elem erase_first
  elem-erase_first_le a b [] h = refl
  elem-erase_first_le a b (x ∷ xs) h = ground (arith, elem-erase_first_le a b xs)

  pub Distinct-erase_first : (a : A) (xs : List A) → Distinct xs → Distinct (erase_first a xs)
  unfolding elem erase_first
  Distinct-erase_first a [] d = tt
  Distinct-erase_first a (x ∷ xs) d =
      ground (arith, Distinct-erase_first a xs d.1, elem-erase_first_le a x xs)
