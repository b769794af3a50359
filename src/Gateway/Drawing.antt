-- ===== src/Gateway/Drawing.antt =====
-- The loop of AddSession in gateway/network/manager.go that draws an id.
use ki_han_server_distribute.Base.{
  ℕ, zero, suc, ◌+◌, ◌<◌, ◌≤◌, true, false, none, some, List, [], ◌∷◌, ◌≡◌, ◌≢◌, refl, inl, inr,
  arith, ◌==◌, nat_eq, nat_beq_iff, Bool-cases, length, is_some, elem, Distinct,
}
use ki_han_server_distribute.Base.Map.{Map, find, erase, contains, find-erase}
use ki_han_server_distribute.Gateway.{draw_id}

pub Found : List ℕ → Map ℕ ℕ → Type 0
Found draws sessions =
    (id : ℕ) × (rest : List ℕ) × (draw_id draws sessions ≡ some (id, rest))
    × ((id == 0) ≡ false)
    × (find id sessions ≡ none)

length-erase : (k : ℕ) (m : Map ℕ ℕ) → length (erase k m) ≤ length m
unfolding erase
length-erase k [] = omega arith
length-erase k ((j, w) ∷ m) = ground (arith, length-erase k m)

length-erase_found :
    (k : ℕ) (m : Map ℕ ℕ) → is_some (find k m) ≡ true → length (erase k m) < length m
unfolding erase find
length-erase_found k [] e = cc
length-erase_found k ((j, w) ∷ m) e = ground (arith, length-erase k m, length-erase_found k m)

-- An id that is not drawn any more does not matter.
draw_id-erase :
    (d : ℕ) (draws : List ℕ) (m : Map ℕ ℕ)
    → elem d draws ≡ false
    → draw_id draws (erase d m) ≡ draw_id draws m
unfolding draw_id elem
draw_id-erase d [] m a = refl
draw_id-erase d (x ∷ draws) m a =
    let later : elem d draws ≡ false = ground arith in
    let same : find x (erase d m) ≡ find x m =
      ground (arith, find-erase d x m, nat_beq_iff d x, nat_beq_iff x d) in
    rw (same, draw_id-erase d draws m later) refl

-- What AddSession draws is an id that is not 0 and not in use.
pub draw_id-fresh :
    (draws : List ℕ) (sessions : Map ℕ ℕ) (id : ℕ) (rest : List ℕ)
    → draw_id draws sessions ≡ some (id, rest)
    → (id ≢ 0) × (find id sessions ≡ none)
unfolding draw_id
draw_id-fresh [] sessions id rest e = cc
draw_id-fresh (d ∷ draws) sessions id rest e =
    ground (arith, draw_id-fresh draws sessions id rest, nat_beq_iff d 0)

-- Without a zero, more draws than there are sessions hold an id.
Found-nonzero :
    (draws : List ℕ) (m : Map ℕ ℕ)
    → Distinct draws
    → elem 0 draws ≡ false
    → length m < length draws
    → Found draws m
unfolding draw_id Found elem
Found-nonzero [] m d z long = absurd (omega arith)
Found-nonzero (x ∷ draws) m (a, d) z long =
    let zs : elem 0 draws ≡ false = ground arith in
    let nonzero : (x == 0) ≡ false = ground (arith, nat_beq_iff x 0, nat_beq_iff 0 x) in
    elim (Bool-cases (contains x m)) [
      | inl hit ↦
          let short : length (erase x m) < length draws =
            ground (arith, length-erase_found x m hit) in
          let (id, rest, e, nz, free) = Found-nonzero draws (erase x m) d zs short in
          let e' : draw_id draws m ≡ some (id, rest) = rw (draw_id-erase x draws m a) at e in
          (id, rest, ground arith, nz, (draw_id-fresh draws m id rest e').1)
      | inr miss ↦ (x, draws, ground arith, nonzero, ground arith)
    ]

-- Among different numbers, more by two than the sessions there are, AddSession's loop draws an id
-- that is not 0 and not in use.
pub draw_id-Found :
    (draws : List ℕ) (sessions : Map ℕ ℕ)
    → Distinct draws
    → length sessions + 1 < length draws
    → Found draws sessions
unfolding draw_id Found
draw_id-Found [] m d long = absurd (omega arith)
draw_id-Found (zero ∷ draws) m (a, d) long =
    let (id, rest, e, nz, free) = Found-nonzero draws m d a (omega arith) in
    (id, rest, ground arith, nz, free)
draw_id-Found (suc n ∷ draws) m (a, d) long = elim (Bool-cases (contains (suc n) m)) [
  | inl hit ↦
      let short : length (erase (suc n) m) + 1 < length draws =
        ground (arith, length-erase_found (suc n) m hit) in
      let (id, rest, e, nz, free) = draw_id-Found draws (erase (suc n) m) d short in
      let e' : draw_id draws m ≡ some (id, rest) = rw (draw_id-erase (suc n) draws m a) at e in
      (id, rest, ground arith, nz, (draw_id-fresh draws m id rest e').1)
  | inr miss ↦ (suc n, draws, ground arith, ground (arith, nat_beq_iff (suc n) 0), ground arith)
]
