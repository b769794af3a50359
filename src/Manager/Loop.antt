-- ===== src/Manager/Loop.antt =====
-- `RunLoop` in room_manager.cpp.
use ki_han_server_distribute.Base.{
  ℕ, false, ◌&&◌, List, [], ◌∷◌, ◌≡◌, ◌≢◌, refl, inl, inr, arith, ◌==◌, nat_eq, nat_beq_iff,
  Bool-cases,
}
use ki_han_server_distribute.Proto.{Codec}
use ki_han_server_distribute.Room.Methods.{
  SamePlayers-IsValid, tick-SamePlayers, start_game-IsValid,
}
use ki_han_server_distribute.Room.{
  RoomState, idle, gaming, is_full, check_all_ready, tick, start_game,
}
use ki_han_server_distribute.Manager.Invariant.{Inv, apply_method-Inv}
use ki_han_server_distribute.Manager.{
  Manager, assign, apply_method, process_state, process_room, process_rooms, run_loop_round,
  rooms_to_process,
}

module _ ⦃pb : Codec⦄ where
  process_state-Inv : (s : RoomState) (p : ℕ) (m : Manager) → Inv m → Inv (process_state s p m)
  unfolding process_state
  process_state-Inv gaming p m v =
      apply_method-Inv p tick m (λ r n. (tick-SamePlayers r n).id)
        (λ r n ok. SamePlayers-IsValid (tick-SamePlayers r n) ok) v
  process_state-Inv idle p m v =
      elim (Bool-cases (is_full (m.objects p) && check_all_ready (m.objects p))) [
        | inl go ↦ rw go (
            apply_method-Inv p start_game m (λ r n. unfold start_game in refl)
              (λ r n ok. start_game-IsValid r n ok) v)
        | inr wait ↦ rw wait v
      ]

  pub process_room-Inv : (p : ℕ) (m : Manager) → Inv m → Inv (process_room p m)
  unfolding process_room
  process_room-Inv p m v = process_state-Inv (m.objects p).state p m v

  process_rooms-Inv : (ps : List ℕ) (m : Manager) → Inv m → Inv (process_rooms ps m)
  unfolding process_rooms
  process_rooms-Inv [] m v = v
  process_rooms-Inv (p ∷ ps) m v = process_rooms-Inv ps (process_room p m) (process_room-Inv p m v)

  pub run_loop_round-Inv : (m : Manager) → Inv m → Inv (run_loop_round m)
  unfolding run_loop_round
  run_loop_round-Inv m v = process_rooms-Inv (rooms_to_process m) m v

  process_state_other :
      (s : RoomState) (p q : ℕ) (m : Manager)
      → (p == q) ≡ false
      → (process_state s p m).objects q ≡ m.objects q
  unfolding process_state apply_method assign
  process_state_other gaming p q m ne = rw ne
  process_state_other idle p q m ne =
      elim (Bool-cases (is_full (m.objects p) && check_all_ready (m.objects p))) [
        | inl go ↦ rw go (rw ne)
        | inr wait ↦ rw wait
      ]

  -- The loop's body leaves every other room object alone.
  pub process_room_other :
      (p q : ℕ) (m : Manager) → p ≢ q → (process_room p m).objects q ≡ m.objects q
  unfolding process_room
  process_room_other p q m ne =
      process_state_other (m.objects p).state p q m (ground (arith, nat_beq_iff p q))

  -- An idle room that is not ready is passed over.
  pub process_room_idle :
      (p : ℕ) (m : Manager)
      → (m.objects p).state ≡ idle
      → check_all_ready (m.objects p) ≡ false
      → process_room p m ≡ m
  unfolding process_room process_state
  process_room_idle p m quiet unready = rw (quiet, unready) (ground arith)
