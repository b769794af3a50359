-- ===== src/Manager/Process.antt =====
-- game_server/src/main.cpp, RunServer: the main thread and the thread of the run loop, with the flag
-- `running_` between them. The gRPC server is a parameter of the order of steps: when `Wait` returns
-- is left open.
pub mod Ending
use ki_han_server_distribute.Base.{
  ℕ, suc, ◌+◌, ◌≤◌, Bool, true, false, Option, none, some, ◌≡◌, ◌≢◌, refl, ◌⊎◌, inl, inr, arith,
  not, if◌then◌else◌,
}
use ki_han_server_distribute.Proto.{Codec}
use ki_han_server_distribute.Manager.{Manager, empty_manager, run_loop_round}
use ki_han_server_distribute.Manager.Running.{Turn, turn}

-- Where the thread of the run loop stands: before `running_ = true`, at the test of the loop, in the
-- loop's body, or behind the loop.
pub data LoopThread : Type 0 where
  unstarted testing working ended : LoopThread

-- Where the main thread stands: in `server->Wait()`, at `Stop()`, in `join()`, or behind it.
pub data MainThread : Type 0 where
  waiting stopping joining returned : MainThread

pub record Process : Type 0 where
  pub rooms : Manager
  pub running : Bool
  pub loop : LoopThread
  pub main : MainThread

unfoldable pub launched : Process
launched = record { rooms = empty_manager; running = false; loop = unstarted; main = waiting }

module _ ⦃pb : Codec⦄ where
  unfoldable pub loop_at : LoopThread → Turn → Process → Option Process
  loop_at unstarted t s = some (record s { running = true; loop = testing })
  loop_at testing t s = some (record s { loop = if s.running then working else ended })
  loop_at working t s = some (record s { rooms = turn t s.rooms; loop = testing })
  loop_at ended t s = none

  -- What the run loop's thread does next, its round in one step.
  unfoldable pub loop_step : Turn → Process → Option Process
  unfolding loop_at
  loop_step t s = loop_at s.loop t s

  unfoldable pub joined_by : LoopThread → Process → Option Process
  joined_by ended s = some (record s { main = returned })
  joined_by _ s = none

  unfoldable pub main_at : MainThread → Process → Option Process
  unfolding joined_by
  main_at waiting s = some (record s { main = stopping })
  main_at stopping s = some (record s { running = false; main = joining })
  main_at joining s = joined_by s.loop s
  main_at returned s = none

  -- What the main thread does next; `none`: it is blocked, or has returned.
  unfoldable pub main_step : Process → Option Process
  unfolding main_at
  main_step s = main_at s.main s

  pub data Runs (s : Process) : ℕ → Process → Type 0 where
    still : Runs s 0 s
    loop_moves :
        {n : ℕ} {s' s'' : Process} (t : Turn)
        → Runs s n s'
        → loop_step t s' ≡ some s''
        → Runs s (suc n) s''
    main_moves :
        {n : ℕ} {s' s'' : Process} → Runs s n s' → main_step s' ≡ some s'' → Runs s (suc n) s''
