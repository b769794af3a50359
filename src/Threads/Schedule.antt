-- ===== src/Threads/Schedule.antt =====
-- Reachable pools by evaluation: the threads are run in a given order, a section at a time.
use ki_han_server_distribute.Base.{ℕ, zero, suc, Option, none, some, List, [], ◌∷◌}
use ki_han_server_distribute.Threads.{Task, ret, fault, atomic}
use ki_han_server_distribute.Threads.Pool.{Pool, Move, first, later, PoolReach, next, moves}

module _ {S A : Type 0} where
  -- A section of the thread at a place of the list, where it has one left.
  pub record Taken (s : S) (ts : List (Task S A)) : Type 0 where
    after : S
    rest : List (Task S A)
    move : Move s ts after rest

  delayed :
      (t : Task S A) {s : S} {ts : List (Task S A)}
      → Option (Taken s ts)
      → Option (Taken s (t ∷ ts))
  delayed t none = none
  delayed t (some turn) =
      some (record { after = turn.after; rest = t ∷ turn.rest; move = later turn.move })

  now : (t : Task S A) (s : S) (ts : List (Task S A)) → Option (Taken s (t ∷ ts))
  now (ret a) s ts = none
  now fault s ts = none
  now (atomic f k) s ts = some (record { after = f s; rest = k s ∷ ts; move = first })

  unfoldable pub turn_of : ℕ → (s : S) (ts : List (Task S A)) → Option (Taken s ts)
  unfolding delayed now
  turn_of n s [] = none
  turn_of zero s (t ∷ ts) = now t s ts
  turn_of (suc n) s (t ∷ ts) = delayed t (turn_of n s ts)

  pub record Run (Starts : Task S A → Type 0) (s₀ : S) : Type 0 where
    pub last : Pool S A
    pub reach : PoolReach Starts s₀ last

  module _ {Starts : Task S A → Type 0} {s₀ : S} where
    moved : (r : Run Starts s₀) → Option (Taken r.last.state r.last.tasks) → Run Starts s₀
    moved r none = r
    moved r (some turn) = record {
      last = record { state = turn.after; tasks = turn.rest };
      reach = next r.reach (moves turn.move);
    }

    -- A number that no thread has, or one of a thread that has returned, is passed over.
    unfoldable pub run : List ℕ → Run Starts s₀ → Run Starts s₀
    unfolding moved turn_of
    run [] r = r
    run (n ∷ ns) r = run ns (moved r (turn_of n r.last.state r.last.tasks))
