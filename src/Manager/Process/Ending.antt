-- ===== src/Manager/Process/Ending.antt =====
-- Whether the game server's process ends once Stop has been called.
use ki_han_server_distribute.Base.{
  ℕ, suc, ◌+◌, ◌≤◌, Bool, true, false, none, some, ◌≡◌, ◌≢◌, refl, ap, arith,
}
use ki_han_server_distribute.Proto.{Codec}
use ki_han_server_distribute.Manager.{Manager}
use ki_han_server_distribute.Manager.Running.{Turn, turn}
use ki_han_server_distribute.Manager.Process.{
  Process, LoopThread, unstarted, testing, working, ended, MainThread, stopping, joining, returned,
  loop_at, loop_step, joined_by, main_at, main_step, Runs, still, loop_moves, main_moves,
}

abbrev pub process_at : Manager → Bool → LoopThread → MainThread → Process
process_at m b l t = record { rooms = m; running = b; loop = l; main = t }

-- A process whose loop had begun when Stop was called, with the steps that it has left.
data Stopped (s : Process) : ℕ → Type 0 where
  at_work : (m : Manager) → s ≡ process_at m false working joining → Stopped s 3
  at_test : (m : Manager) → s ≡ process_at m false testing joining → Stopped s 2
  at_end : (m : Manager) → s ≡ process_at m false ended joining → Stopped s 1
  over : (m : Manager) → s ≡ process_at m false ended returned → Stopped s 0

-- A process in which Stop came before the loop's `running_ = true`.
data Lost (s : Process) : Type 0 where
  lost_before : (m : Manager) (b : Bool) → s ≡ process_at m b unstarted joining → Lost s
  lost_test : (m : Manager) → s ≡ process_at m true testing joining → Lost s
  lost_work : (m : Manager) → s ≡ process_at m true working joining → Lost s

moved : {s s' : Process} → some s ≡ some s' → s' ≡ s
moved e = cc

stuck {ℓ} : {A : Type ℓ} {s : Process} → none ≡ some s → A
stuck e = cc

module _ ⦃pb : Codec⦄ where
  abbrev One : Process → ℕ → Type 0
  One s' n = (k : ℕ) × (n ≡ suc k) × Stopped s' k

  loop_step-Stopped :
      (t : Turn) {s s' : Process} {n : ℕ} → Stopped s n → loop_step t s ≡ some s' → One s' n
  unfolding loop_step loop_at
  loop_step-Stopped t (at_work m e) step = (2, refl, at_test (turn t m) (moved (rw e at step)))
  loop_step-Stopped t (at_test m e) step = (1, refl, at_end m (moved (rw e at step)))
  loop_step-Stopped t (at_end m e) step = stuck (rw e at step)
  loop_step-Stopped t (over m e) step = stuck (rw e at step)

  main_step-Stopped : {s s' : Process} {n : ℕ} → Stopped s n → main_step s ≡ some s' → One s' n
  unfolding main_step main_at joined_by
  main_step-Stopped (at_work m e) step = stuck (rw e at step)
  main_step-Stopped (at_test m e) step = stuck (rw e at step)
  main_step-Stopped (at_end m e) step = (0, refl, over m (moved (rw e at step)))
  main_step-Stopped (over m e) step = stuck (rw e at step)

  Runs-Stopped :
      {s s' : Process} {n k : ℕ} → Stopped s n → Runs s k s' → (j : ℕ) × (n ≡ k + j) × Stopped s' j
  Runs-Stopped {n} h still = (n, omega arith, h)
  Runs-Stopped h (loop_moves t r step) =
      let (j, e, h') = Runs-Stopped h r in
      let (i, e', h'') = loop_step-Stopped t h' step in (i, omega (arith, e, e'), h'')
  Runs-Stopped h (main_moves r step) =
      let (j, e, h') = Runs-Stopped h r in
      let (i, e', h'') = main_step-Stopped h' step in (i, omega (arith, e, e'), h'')

  -- Nothing moves any more only where the main thread has returned.
  Stopped-returned :
      (t : Turn) {s : Process} {n : ℕ}
      → Stopped s n
      → loop_step t s ≡ none
      → main_step s ≡ none
      → s.main ≡ returned
  unfolding loop_step loop_at main_step main_at joined_by
  Stopped-returned t (at_work m e) l b = cc (rw e at l)
  Stopped-returned t (at_test m e) l b = cc (rw e at l)
  Stopped-returned t (at_end m e) l b = cc (rw e at b)
  Stopped-returned t (over m e) l b = ap (λ (s : Process). s.main) e

  loop_step-Lost : (t : Turn) {s s' : Process} → Lost s → loop_step t s ≡ some s' → Lost s'
  unfolding loop_step loop_at
  loop_step-Lost t (lost_before m b e) step = lost_test m (moved (rw e at step))
  loop_step-Lost t (lost_test m e) step = lost_work m (moved (rw e at step))
  loop_step-Lost t (lost_work m e) step = lost_test (turn t m) (moved (rw e at step))

  main_step-Lost : {s : Process} → Lost s → main_step s ≡ none
  unfolding main_step main_at joined_by
  main_step-Lost (lost_before m b e) = rw e refl
  main_step-Lost (lost_test m e) = rw e refl
  main_step-Lost (lost_work m e) = rw e refl

  Runs-Lost : {s s' : Process} {n : ℕ} → Lost s → Runs s n s' → Lost s'
  Runs-Lost h still = h
  Runs-Lost h (loop_moves t r step) = loop_step-Lost t (Runs-Lost h r) step
  Runs-Lost h (main_moves r step) = let blocked = main_step-Lost (Runs-Lost h r) in cc

  Lost-joining : (t : Turn) {s : Process} → Lost s → (s.main ≡ joining) × (loop_step t s ≢ none)
  unfolding loop_step loop_at
  Lost-joining t (lost_before m b e) = (ap (λ (s : Process). s.main) e, λ l. cc (rw e at l))
  Lost-joining t (lost_test m e) = (ap (λ (s : Process). s.main) e, λ l. cc (rw e at l))
  Lost-joining t (lost_work m e) = (ap (λ (s : Process). s.main) e, λ l. cc (rw e at l))

  stop_begun :
      (l : LoopThread) (m : Manager) (b : Bool) (s : Process)
      → l ≢ unstarted
      → main_step (process_at m b l stopping) ≡ some s
      → (n : ℕ) × (n ≤ 3) × Stopped s n
  unfolding main_step main_at
  stop_begun unstarted m b s begun step = absurd (begun refl)
  stop_begun testing m b s begun step = (2, omega arith, at_test m (moved step))
  stop_begun working m b s begun step = (3, omega arith, at_work m (moved step))
  stop_begun ended m b s begun step = (1, omega arith, at_end m (moved step))

  -- When Stop is called on a run loop that has begun, the process ends: from the call on, the two
  -- threads take at most three steps in all, and where neither can go on the main thread has
  -- returned from join.
  pub stop_ends :
      (m : Manager) (b : Bool) (l : LoopThread) (s s' : Process) (n : ℕ) (t : Turn)
      → l ≢ unstarted
      → main_step (process_at m b l stopping) ≡ some s
      → Runs s n s'
      → (n ≤ 3) × (loop_step t s' ≡ none → main_step s' ≡ none → s'.main ≡ returned)
  stop_ends m b l s s' n t begun step r =
      let (k, few, h) = stop_begun l m b s begun step in
      let (j, e, h') = Runs-Stopped h r in
      (omega (arith, few, e), λ nl nm. Stopped-returned t h' nl nm)

  -- When Stop is called before the run loop's thread has set the flag, the call is lost: however
  -- the process goes on, the main thread stays in join, and the loop's thread always has a next
  -- step.
  pub stop_lost :
      (m : Manager) (b : Bool) (s s' : Process) (n : ℕ) (t : Turn)
      → main_step (process_at m b unstarted stopping) ≡ some s
      → Runs s n s'
      → (s'.main ≡ joining) × (loop_step t s' ≢ none)
  unfolding main_step main_at
  stop_lost m b s s' n t step r = Lost-joining t (Runs-Lost (lost_before m false (moved step)) r)
