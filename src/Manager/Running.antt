-- ===== src/Manager/Running.antt =====
-- The loop of `RunLoop` in room_manager.cpp and `Stop`. Time is left out: a turn is one round with
-- the sleep behind it.
use ki_han_server_distribute.Base.{
  Bool, true, false, Option, none, some, List, [], ◌∷◌, ◌++◌, ◌≡◌, refl, not,
}
use ki_han_server_distribute.Proto.{Codec}
use ki_han_server_distribute.Manager.{Manager, run_loop_round}

-- What the other threads do to the rooms during a round and the sleep behind it, and whether
-- `Stop` is among it.
pub record Turn : Type 0 where
  pub others : Manager → Manager
  pub stops : Bool

module _ ⦃pb : Codec⦄ where
  unfoldable pub turn : Turn → Manager → Manager
  turn t m = t.others (run_loop_round m)

  -- The loop with the flag `running_`. `none`: it is still running behind these turns.
  unfoldable pub run_while : Bool → List Turn → Manager → Option Manager
  unfolding turn
  run_while false ts m = some m
  run_while true [] m = none
  run_while true (t ∷ ts) m = run_while (not t.stops) ts (turn t m)

  unfoldable pub run_loop : List Turn → Manager → Option Manager
  unfolding run_while
  run_loop ts m = run_while true ts m

  -- Turns that do not stop the loop, and what they leave.
  unfoldable pub Quiet : List Turn → Type 0
  Quiet [] = Unit
  Quiet (t ∷ ts) = (t.stops ≡ false) × Quiet ts

  pub turns : List Turn → Manager → Manager
  turns [] m = m
  turns (t ∷ ts) m = turns ts (turn t m)

  run_while-Quiet :
      (before : List Turn) (m : Manager) → Quiet before → run_while true before m ≡ none
  unfolding run_while Quiet
  run_while-Quiet [] m q = refl
  run_while-Quiet (t ∷ ts) m (q, qs) = rw q (run_while-Quiet ts (turn t m) qs)

  run_while_stopped :
      (before after : List Turn) (last : Turn) (m : Manager)
      → Quiet before
      → last.stops ≡ true
      → run_while true (before ++ (last ∷ after)) m ≡ some (turns (before ++ last ∷ []) m)
  unfolding run_while Quiet turns
  run_while_stopped [] after last m q s = rw s refl
  run_while_stopped (t ∷ ts) after last m (q, qs) s =
      rw q (run_while_stopped ts after last (turn t m) qs s)

  -- The run loop ends after the round in which Stop is called, that round and all before it done
  -- and none after it, whatever the other threads do in between; without a Stop it does not end.
  pub run_loop_ends :
      (before after : List Turn) (last : Turn) (m : Manager)
      → Quiet before
      → last.stops ≡ true
      → (run_loop (before ++ (last ∷ after)) m ≡ some (turns (before ++ last ∷ []) m))
        × (run_loop before m ≡ none)
  unfolding run_loop
  run_loop_ends before after last m q s =
      (run_while_stopped before after last m q s, run_while-Quiet before m q)
