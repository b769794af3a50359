-- ===== src/Manager/Start.antt =====
-- How the run loop of room_manager.cpp starts a game, and when it does not.
use ki_han_server_distribute.Base.{ℕ, ◌≤◌, true, some, [], ◌++◌, ◌≡◌, refl, arith, length, nat_eq}
use ki_han_server_distribute.Base.Map.{find}
use ki_han_server_distribute.Proto.{Codec}
use ki_han_server_distribute.Sessions.Deliveries.{deliveries, send_to_players-deliveries}
use ki_han_server_distribute.Room.Ready.{check_all_ready_iff}
use ki_han_server_distribute.Room.{
  Player, idle, gaming, is_full, check_all_ready, broadcast, start_game,
}
use ki_han_server_distribute.Manager.Invariant.{Inv, objects-assign_self}
use ki_han_server_distribute.Manager.{Manager, apply_method, process_state, process_room}

module _ ⦃pb : Codec⦄ where
  -- What the loop's body does with a full room whose players are ready.
  process_room_ready :
      (p : ℕ) (m : Manager)
      → (m.objects p).state ≡ idle
      → 2 ≤ length (m.objects p).player_uids
      → check_all_ready (m.objects p) ≡ true
      → process_room p m ≡ apply_method p start_game m
  unfolding process_room process_state is_full
  process_room_ready p m quiet two ready = rw (quiet, ready) (ground arith)

  -- On well-formed rooms the loop starts an idle room of two players or more as soon as every
  -- player of it is ready: the room is in play from frame 0 with no inputs, and each connected
  -- player of it gets the start message, once and in order.
  pub process_room_starts :
      (p : ℕ) (m : Manager)
      → Inv m
      → (m.objects p).state ≡ idle
      → 2 ≤ length (m.objects p).player_uids
      → ((u : ℕ) (q : Player) → find u (m.objects p).players ≡ some q → q.ready ≡ true)
      → let r = (process_room p m).objects p in
        (r.state ≡ gaming)
        × (r.current_frame.frame_id ≡ 0)
        × (r.current_frame.raw_inputs ≡ [])
        × ((process_room p m).net.sent
            ≡ m.net.sent
              ++ deliveries m.net.sessions
                  (m.objects p).player_uids
                  2003
                  (pb.serialize_game_start_ntf (record { room_id = (m.objects p).id })))
  process_room_starts p m v quiet two all =
      let ready : check_all_ready (m.objects p) ≡ true =
        (check_all_ready_iff (m.objects p) (v.valid p)).1 (two, all) in
      rw (process_room_ready p m quiet two ready) (
        unfold apply_method in
        rw (objects-assign_self p (start_game (m.objects p) m.net).0 m) (
          unfold start_game in
          (refl, refl, refl, unfold broadcast in rw send_to_players-deliveries)))
