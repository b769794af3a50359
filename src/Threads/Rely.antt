-- ===== src/Threads/Rely.antt =====
-- Rely and guarantee: what a thread may count on while others run, and what it promises them.
use ki_han_server_distribute.Threads.{Task, ret, fault, atomic, ◌>>=◌}

-- The invariant of the state, and how any section of any thread may change it.
pub record Rely (S : Type 0) : Type 1 where
  pub Holds : S → Type 0
  pub Grows : S → S → Type 0
  pub grows_refl : (s : S) → Grows s s
  pub grows_trans : {s s' s'' : S} → Grows s s' → Grows s' s'' → Grows s s''

module _ {S : Type 0} (R : Rely S) where
  open R use {Holds, Grows, grows_refl, grows_trans}

  -- From the state `s` on the task keeps the invariant and changes the state only so, whatever the
  -- others do between its sections, and never fails.
  unfoldable pub Safe : {A : Type 0} → Task S A → S → Type 0
  Safe (ret a) s = Unit
  Safe fault s = ⊥
  Safe (atomic f k) s =
      (s' : S) → Grows s s' → Holds s' → Holds (f s') × Grows s' (f s') × Safe (k s') (f s')

  -- What the others do keeps a task safe.
  pub Safe-Grows : {A : Type 0} (t : Task S A) {s s' : S} → Grows s s' → Safe t s → Safe t s'
  unfolding Safe
  Safe-Grows (ret a) g h = tt
  Safe-Grows fault g h = h
  Safe-Grows (atomic f k) g h = λ s'' g'. h s'' (grows_trans g g')

  -- A sequence is safe if its first task is and its second is behind any growth.
  Safe-then :
      {A B : Type 0} (t : Task S A) (k : A → Task S B) (s₀ s : S)
      → Grows s₀ s
      → Holds s
      → Safe t s
      → ((a : A) (s' : S) → Grows s₀ s' → Holds s' → Safe (k a) s')
      → Safe (t >>= k) s
  unfolding Safe ◌>>=◌
  Safe-then (ret a) k s₀ s g v h rest = rest a s g v
  Safe-then fault k s₀ s g v h rest = absurd h
  Safe-then (atomic f j) k s₀ s g v h rest = λ s' g' v'.
      let (kept, grown, after) = h s' g' v' in
      (
        kept,
        grown,
        Safe-then (j s') k s₀ (f s') (grows_trans (grows_trans g g') grown) kept after rest,
      )

  pub Safe-sequence :
      {A B : Type 0} (t : Task S A) (k : A → Task S B) (s : S)
      → Holds s
      → Safe t s
      → ((a : A) (s' : S) → Grows s s' → Holds s' → Safe (k a) s')
      → Safe (t >>= k) s
  Safe-sequence t k s = Safe-then t k s s (grows_refl s)
