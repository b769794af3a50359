-- ===== src/Base/Map.antt =====
-- `std::unordered_map`: an association list in the order of iteration.
use mathlib.Core.Path.{◌≡◌, refl}
use mathlib.Core.Bool.{Bool, true, ◌&&◌}
use mathlib.Core.List.{List, [], ◌∷◌}
use mathlib.Core.Option
use mathlib.Core.Option.{Option, none, some}
use native.Mathlib.Omega.{arith}
use ki_han_server_distribute.Base.Tests.{KeyEq, ◌==◌, ==_refl, if◌then◌else◌, is_some}

abbrev pub Map {ℓ κ} : Type ℓ → Type κ → Type (ℓ ⊔ κ)
Map K V = List (K × V)

module _ {ℓ κ} {K : Type ℓ} {V : Type κ} ⦃e : KeyEq K⦄ where
  unfoldable pub find : K → Map K V → Option V
  find k [] = none
  find k ((j, v) ∷ m) = if j == k then some v else find k m

  abbrev pub contains : K → Map K V → Bool
  contains k m = is_some (find k m)

  -- `m[k] = v`
  unfoldable pub set : K → V → Map K V → Map K V
  set k v [] = (k, v) ∷ []
  set k v ((j, w) ∷ m) = if j == k then (k, v) ∷ m else (j, w) ∷ set k v m

  unfoldable pub erase : K → Map K V → Map K V
  erase k [] = []
  erase k ((j, v) ∷ m) = let rest = erase k m in if j == k then rest else (j, v) ∷ rest

  -- `m.find(k)->second` changed in place; nothing happens where the key is missing.
  unfoldable pub update : K → (V → V) → Map K V → Map K V
  update k f [] = []
  update k f ((j, v) ∷ m) = if j == k then (j, f v) ∷ m else (j, v) ∷ update k f m

  -- `for (auto& pair : m) pair.second = f(pair.second)`
  unfoldable pub map_values : (V → V) → Map K V → Map K V
  map_values f [] = []
  map_values f ((j, v) ∷ m) = (j, f v) ∷ map_values f m

  -- A loop that returns false at the first value that fails the test.
  unfoldable pub all_values : (V → Bool) → Map K V → Bool
  all_values p [] = true
  all_values p ((j, v) ∷ m) = p v && all_values p m

  -- No key stands twice.
  abbrev pub Unique : Map K V → Type κ
  Unique [] = Unit {κ}
  Unique ((j, v) ∷ m) = (find j m ≡ none) × Unique m

  pub find-set :
      (k j : K) (v : V) (m : Map K V) → find j (set k v m) ≡ (if k == j then some v else find j m)
  unfolding find set
  find-set k j v [] = refl
  find-set k j v ((i, w) ∷ m) =
      ground (arith, find-set k j v m, e.equal_iff i k, e.equal_iff i j, e.equal_iff k j)

  pub find-set_self : (k : K) (v : V) (m : Map K V) → find k (set k v m) ≡ some v
  find-set_self k v m = ground (arith, find-set k k v m, ==_refl k)

  pub find-erase :
      (k j : K) (m : Map K V) → find j (erase k m) ≡ (if k == j then none else find j m)
  unfolding find erase
  find-erase k j [] = ground arith
  find-erase k j ((i, w) ∷ m) =
      ground (arith, find-erase k j m, e.equal_iff i k, e.equal_iff i j, e.equal_iff k j)

  pub find-erase_self : (k : K) (m : Map K V) → find k (erase k m) ≡ none
  find-erase_self k m = ground (arith, find-erase k k m, ==_refl k)

  pub find-update :
      (k j : K) (f : V → V) (m : Map K V)
      → find j (update k f m) ≡ (if k == j then Option.map f (find j m) else find j m)
  unfolding find update
  find-update k j f [] = ground arith
  find-update k j f ((i, w) ∷ m) =
      ground (arith, find-update k j f m, e.equal_iff i k, e.equal_iff i j, e.equal_iff k j)

  pub find-map_values :
      (k : K) (f : V → V) (m : Map K V) → find k (map_values f m) ≡ Option.map f (find k m)
  unfolding find map_values
  find-map_values k f [] = refl
  find-map_values k f ((i, w) ∷ m) = ground (arith, find-map_values k f m)

  pub Unique-set : (k : K) (v : V) (m : Map K V) → Unique m → Unique (set k v m)
  unfolding find set
  Unique-set k v [] u = (refl, tt)
  Unique-set k v ((j, w) ∷ m) u =
      ground (arith, Unique-set k v m u.1, find-set k j v m, e.equal_iff j k, e.equal_iff k j)

  pub Unique-erase : (k : K) (m : Map K V) → Unique m → Unique (erase k m)
  unfolding erase
  Unique-erase k [] u = tt
  Unique-erase k ((j, w) ∷ m) u = ground (arith, Unique-erase k m u.1, find-erase k j m)

  pub Unique-update : (k : K) (f : V → V) (m : Map K V) → Unique m → Unique (update k f m)
  unfolding update
  Unique-update k f [] u = tt
  Unique-update k f ((j, w) ∷ m) u =
      ground (arith, Unique-update k f m u.1, find-update k j f m, e.equal_iff j k, e.equal_iff k j)

  pub Unique-map_values : (f : V → V) (m : Map K V) → Unique m → Unique (map_values f m)
  unfolding map_values
  Unique-map_values f [] u = tt
  Unique-map_values f ((j, w) ∷ m) u =
      ground (arith, Unique-map_values f m u.1, find-map_values j f m)

  -- The test holds of every value that can be found.
  pub all_values-find :
      (p : V → Bool) (k : K) (v : V) (m : Map K V)
      → all_values p m ≡ true
      → find k m ≡ some v
      → p v ≡ true
  unfolding find all_values
  all_values-find p k v [] a h = cc
  all_values-find p k v ((j, w) ∷ m) a h = ground (arith, all_values-find p k v m)

  -- With each key once, the loop's answer does not depend on the order of iteration.
  pub all_values_of_find :
      (p : V → Bool) (m : Map K V)
      → Unique m
      → ((k : K) (v : V) → find k m ≡ some v → p v ≡ true)
      → all_values p m ≡ true
  unfolding find all_values
  all_values_of_find p [] u h = refl
  all_values_of_find p ((j, w) ∷ m) u h =
      let tail : all_values p m ≡ true =
        all_values_of_find p m u.1 (λ k v found. h k v (ground (arith, u.0, e.equal_iff j k))) in
      ground (arith, tail, h j w, ==_refl j)
