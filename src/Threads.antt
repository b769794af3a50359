-- ===== src/Threads.antt =====
-- Threads that share a state under locks, for the server's handlers at the grain of their critical
-- sections. A task is what is left of one thread's work: it has returned, it has failed, or it
-- next takes a lock, reads and changes the state under it, and goes on with what it read.
pub mod Rely
pub mod Pool
pub mod Schedule
pub mod Moves
use ki_han_server_distribute.Base.{Option, none, some, ◌≡◌, refl}

pub data Task {ℓ κ} (S : Type ℓ) (A : Type κ) : Type (ℓ ⊔ κ) where
  ret : A → Task S A
  fault : Task S A
  atomic : (S → S) → (S → Task S A) → Task S A

module _ {ℓ κ} {S : Type ℓ} {A : Type κ} where
  -- One section that reads, and one that changes the state.
  abbrev pub look : (S → A) → Task S A
  look g = atomic (λ s. s) (λ s. ret (g s))

  -- An exception that leaves the thread, or a null pointer that is dereferenced.
  abbrev pub must : Option A → Task S A
  must none = fault
  must (some a) = ret a

  -- The task with no other thread beside it.
  unfoldable pub alone : Task S A → S → Option (A × S)
  alone (ret a) s = some (a, s)
  alone fault s = none
  alone (atomic f k) s = alone (k s) (f s)

abbrev pub change {ℓ} : {S : Type ℓ} → (S → S) → Task S (Unit {0})
change f = atomic f (λ s. ret tt)

infixl 5 ◌>>=◌ ◌>>◌
unfoldable pub ◌>>=◌ {ℓ κ μ} :
    {S : Type ℓ} {A : Type κ} {B : Type μ} → Task S A → (A → Task S B) → Task S B
ret a >>= k = k a
fault >>= k = fault
atomic f j >>= k = atomic f (λ s. j s >>= k)

abbrev pub ◌>>◌ {ℓ κ μ} : {S : Type ℓ} {A : Type κ} {B : Type μ} → Task S A → Task S B → Task S B
t >> u = t >>= λ a. u

-- Alone, a sequence is one task after the other.
pub alone_then {ℓ κ μ} :
    {S : Type ℓ} {A : Type κ} {B : Type μ} (t : Task S A) (k : A → Task S B) (s s' : S) (a : A)
    → alone t s ≡ some (a, s')
    → alone (t >>= k) s ≡ alone (k a) s'
unfolding alone ◌>>=◌
alone_then (ret b) k s s' a e = cc
alone_then fault k s s' a e = cc
alone_then (atomic f j) k s s' a e = alone_then (j s) k (f s) s' a e

pub alone_fails {ℓ κ μ} :
    {S : Type ℓ} {A : Type κ} {B : Type μ} (t : Task S A) (k : A → Task S B) (s : S)
    → alone t s ≡ none
    → alone (t >>= k) s ≡ none
unfolding alone ◌>>=◌
alone_fails (ret b) k s e = cc
alone_fails fault k s e = refl
alone_fails (atomic f j) k s e = alone_fails (j s) k (f s) e
