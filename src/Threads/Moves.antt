-- ===== src/Threads/Moves.antt =====
-- Some sections of the threads of a list, one behind the other, with no thread started between them.
use ki_han_server_distribute.Base.{some, List, ◌∷◌, ◌≡◌, subst, sym}
use ki_han_server_distribute.Threads.{Task, ret, fault, atomic, alone, ◌>>=◌}
use ki_han_server_distribute.Threads.Pool.{Move, first, later, PoolReach, next, moves}

pub data Moves {S A : Type 0} (s : S) (ts : List (Task S A)) : S → List (Task S A) → Type 0 where
  stay : Moves s ts s ts
  then_move :
      {s' s'' : S} {ts' ts'' : List (Task S A)}
      → Moves s ts s' ts'
      → Move s' ts' s'' ts''
      → Moves s ts s'' ts''

module _ {S A : Type 0} where
  pub Moves-trans :
      {s s' : S} {ts ts' : List (Task S A)} {s'' : S} {ts'' : List (Task S A)}
      → Moves s ts s' ts'
      → Moves s' ts' s'' ts''
      → Moves s ts s'' ts''
  Moves-trans m stay = m
  Moves-trans m (then_move n last) = then_move (Moves-trans m n) last

  pub Moves-later :
      (t : Task S A) {s : S} {ts : List (Task S A)} {s' : S} {ts' : List (Task S A)}
      → Moves s ts s' ts'
      → Moves s (t ∷ ts) s' (t ∷ ts')
  Moves-later t stay = stay
  Moves-later t (then_move m last) = then_move (Moves-later t m) (later last)

  -- A section of the first thread, which stands at a task of this form.
  pub Moves-section :
      (t u : Task S A) {f : S → S} {k : S → Task S A} (s : S) (ts : List (Task S A))
      → t ≡ atomic f k
      → k s ≡ u
      → Moves s (t ∷ ts) (f s) (u ∷ ts)
  Moves-section t u {f} {k} s ts e e' =
      subst (λ t'. Moves s (t' ∷ ts) (f s) (u ∷ ts)) (sym e)
        (subst (λ u'. Moves s (atomic f k ∷ ts) (f s) (u' ∷ ts)) e' (then_move stay first))

  -- The first thread does what stands before `k`.
  pub Moves-alone {κ} :
      {B : Type κ} (t : Task S B) (k : B → Task S A) (ts : List (Task S A)) (s s' : S) (b : B)
      → alone t s ≡ some (b, s')
      → Moves s ((t >>= k) ∷ ts) s' (k b ∷ ts)
  unfolding alone ◌>>=◌
  Moves-alone (ret c) k ts s s' b e =
      let value : c ≡ b = cc in
      let state : s ≡ s' = cc in
      subst (λ x. Moves s (k c ∷ ts) s' (k x ∷ ts)) value
        (subst (λ x. Moves s (k c ∷ ts) x (k c ∷ ts)) state stay)
  Moves-alone fault k ts s s' b e = cc
  Moves-alone (atomic f j) k ts s s' b e =
      Moves-trans (then_move stay first) (Moves-alone (j s) k ts (f s) s' b e)

  -- What some threads of a pool may do, the pool may reach.
  pub Moves-PoolReach :
      (Starts : Task S A → Type 0) {s₀ s : S} {ts : List (Task S A)} {s' : S}
      {ts' : List (Task S A)}
      → PoolReach Starts s₀ (record { state = s; tasks = ts })
      → Moves s ts s' ts'
      → PoolReach Starts s₀ (record { state = s'; tasks = ts' })
  Moves-PoolReach Starts r stay = r
  Moves-PoolReach Starts r (then_move m last) = next (Moves-PoolReach Starts r m) (moves last)
