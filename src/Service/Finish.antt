-- ===== src/Service/Finish.antt =====
-- The end of a game: StopGame and DestroyRoom, on request 2006 and when a player's stream ends.
use ki_han_server_distribute.Base.{
  ℕ, ℤ, none, some, [], ◌∷◌, ◌++◌, ◌≡◌, ◌≢◌, refl, ap, ◌∙◌, ◌⊎◌, arith, if◌then◌else◌, ◌==◌, nat_eq,
  int_eq, nat_beq_iff, elem, ==_refl,
}
use ki_han_server_distribute.Base.Map.{find, find-erase_self}
use ki_han_server_distribute.Base.Bytes.{Bytes}
use ki_han_server_distribute.Proto.{Codec}
use ki_han_server_distribute.Sessions.{Sessions}
use ki_han_server_distribute.Sessions.Deliveries.{deliveries, send_to_players-deliveries}
use ki_han_server_distribute.Room.Ready.{stop_game-not_ready}
use ki_han_server_distribute.Room.{Room, gaming, stop_game}
use ki_han_server_distribute.Manager.Destroy.{destroy_room_found, destroy_room_lem, unmap_uids-net}
use ki_han_server_distribute.Manager.Invariant.{Inv, unmap_uids-SameRooms, objects-assign_self}
use ki_han_server_distribute.Manager.Loop.{process_room_idle}
use ki_han_server_distribute.Manager.{
  Manager, assign, get_room, get_room_by_uid, room_of, destroy_room, apply_method, process_room,
  remove_room,
}
use ki_han_server_distribute.Service.{finish_room, close_stream, abandon, other_player}

-- The object of a room that StopGame was called on.
apply_method_self :
    (p : ℕ) (method : Room → Sessions → Room × Sessions) (m : Manager)
    → (apply_method p method m).objects p ≡ (method (m.objects p) m.net).0
unfolding apply_method
apply_method_self p method m = objects-assign_self p (method (m.objects p) m.net).0 m

apply_method_rooms :
    (p : ℕ) (method : Room → Sessions → Room × Sessions) (m : Manager)
    → ((apply_method p method m).rooms ≡ m.rooms)
      × ((apply_method p method m).uid_to_room ≡ m.uid_to_room)
      × ((apply_method p method m).net ≡ (method (m.objects p) m.net).1)
unfolding apply_method assign
apply_method_rooms p method m = (refl, refl, refl)

module _ ⦃pb : Codec⦄ where
  -- The message that ends a game.
  abbrev pub game_over_payload : ℤ → ℕ → Bytes
  game_over_payload i winner =
      pb.serialize_game_over_ntf (record { room_id = i; winner_uid = winner })

  module _ (i : ℤ) (p winner : ℕ) (m : Manager) (v : Inv m) (e : find i m.rooms ≡ some p) where
    stopped : Manager
    stopped = apply_method p (λ r n. stop_game r winner n) m

    finish_room_lem : finish_room p winner m ≡ destroy_room i stopped
    unfolding finish_room stopped
    finish_room_lem = ap (λ j. destroy_room j stopped) (v.registered i p e).1

    stopped_found : find i stopped.rooms ≡ some p
    unfolding stopped
    stopped_found = rw (apply_method_rooms p (λ r n. stop_game r winner n) m).0 e

    stopped_rooms : (stopped.rooms ≡ m.rooms) × (stopped.uid_to_room ≡ m.uid_to_room)
    unfolding stopped
    stopped_rooms =
        let kept = apply_method_rooms p (λ r n. stop_game r winner n) m in (kept.0, kept.1)

    stopped_uids : (stopped.objects p).player_uids ≡ (m.objects p).player_uids
    unfolding stopped
    stopped_uids =
        rw (apply_method_self p (λ r n. stop_game r winner n) m) (unfold stop_game in refl)

    stopped_sent :
        stopped.net.sent
        ≡ m.net.sent
          ++ deliveries m.net.sessions
              (m.objects p).player_uids
              2007
              (pb.serialize_game_over_ntf (record { room_id = i; winner_uid = winner }))
    unfolding stopped
    stopped_sent =
        rw ((apply_method_rooms p (λ r n. stop_game r winner n) m).2, ← (v.registered i p e).1)
          (unfold stop_game in rw send_to_players-deliveries)

    -- The object that the room's pointer still leads to.
    finished_object : (destroy_room i stopped).objects p ≡ (stop_game (m.objects p) winner m.net).0
    unfolding stopped
    finished_object = rw (destroy_room_lem i p stopped stopped_found) (
        unfold remove_room in
        rw (unmap_uids-SameRooms (stopped.objects p).player_uids stopped).objects
          (apply_method_self p (λ r n. stop_game r winner n) m))

    passed_over : process_room p (destroy_room i stopped) ≡ destroy_room i stopped
    passed_over =
        let (quiet, unready) = stop_game-not_ready (m.objects p) winner m.net (v.valid p) in
        process_room_idle p (destroy_room i stopped) (rw finished_object quiet)
          (rw finished_object unready)

    finished_net : (destroy_room i stopped).net ≡ stopped.net
    finished_net =
        rw (destroy_room_lem i p stopped stopped_found)
          (unfold remove_room in unmap_uids-net (stopped.objects p).player_uids stopped)

  -- On well-formed rooms, ending a registered room tells each of its connected players the winner,
  -- once and in order; takes the room and no other one out of `rooms_`; unmaps its players; and the
  -- run loop, should it still hold the room's pointer, passes over it.
  pub finish_room_found :
      (i : ℤ) (p winner : ℕ) (m : Manager)
      → Inv m
      → find i m.rooms ≡ some p
      → let uids = (m.objects p).player_uids in
        let m' = finish_room p winner m in
        (m'.net.sent
          ≡ m.net.sent ++ deliveries m.net.sessions uids 2007 (game_over_payload i winner))
        × ((j : ℤ) → get_room m' j ≡ (if i == j then none else get_room m j))
        × ((u : ℕ) → find u m'.uid_to_room ≡ (if elem u uids then none else find u m.uid_to_room))
        × (process_room p m' ≡ m')
  finish_room_found i p winner m v e =
      let (rooms_after, mapped_after) =
        destroy_room_found i p (stopped i p winner m v e) (stopped_found i p winner m v e) in
      let (same_rooms, same_mapping) = stopped_rooms i p winner m v e in
      rw (finish_room_lem i p winner m v e) (
        rw (finished_net i p winner m v e) (stopped_sent i p winner m v e),
        λ j. rooms_after j ∙ (unfold get_room in rw same_rooms refl),
        λ u. mapped_after u ∙ rw (stopped_uids i p winner m v e, same_mapping) refl,
        passed_over i p winner m v e,
      )

  other-of_two :
      (a b uid : ℕ)
      → a ≢ b
      → (uid ≡ a) ⊎ (uid ≡ b)
      → other_player uid (a ∷ b ∷ []) ≡ (if uid == a then b else a)
  unfolding other_player
  other-of_two a b uid ne two =
      ground (arith, nat_beq_iff a uid, nat_beq_iff b uid, nat_beq_iff uid a)

  forfeit_lem :
      (i : ℤ) (p a b uid : ℕ) (m : Manager)
      → find uid m.uid_to_room ≡ some i
      → find i m.rooms ≡ some p
      → (m.objects p).state ≡ gaming
      → (m.objects p).player_uids ≡ a ∷ b ∷ []
      → a ≢ b
      → (uid ≡ a) ⊎ (uid ≡ b)
      → abandon uid (get_room_by_uid m uid) m ≡ finish_room p (if uid == a then b else a) m
  unfolding abandon
  forfeit_lem i p a b uid m mapped found playing two ne which =
      let here : get_room_by_uid m uid ≡ some p =
        (unfold get_room_by_uid in rw (mapped, room_of) (unfold get_room in found)) in
      rw (here, abandon, playing, two, other-of_two a b uid ne which) refl

  -- On well-formed rooms, when the stream of one of the two players of a registered room, mapped to
  -- it, ends during their game, the other one is announced as
  -- the winner to both, and their room is gone.
  pub close_stream_forfeit :
      (i : ℤ) (p a b uid : ℕ) (m : Manager)
      → Inv m
      → find uid m.uid_to_room ≡ some i
      → find i m.rooms ≡ some p
      → (m.objects p).state ≡ gaming
      → (m.objects p).player_uids ≡ a ∷ b ∷ []
      → a ≢ b
      → (uid ≡ a) ⊎ (uid ≡ b)
      → let m' = close_stream uid m in
        (m'.net.sent
          ≡ m.net.sent
            ++ deliveries m.net.sessions
                (a ∷ b ∷ [])
                2007
                (game_over_payload i (if uid == a then b else a)))
        × (get_room m' i ≡ none)
        × (find uid m'.net.sessions ≡ none)
  unfolding close_stream
  close_stream_forfeit i p a b uid m v mapped found playing two ne which =
      let winner = if uid == a then b else a in
      let (written, rooms_after, rest, idle_after) = finish_room_found i p winner m v found in
      let gone : find i (finish_room p winner m).rooms ≡ none =
        (unfold get_room in ground (arith, rooms_after i, ==_refl i)) in
      rw (forfeit_lem i p a b uid m mapped found playing two ne which)
        (written ∙ rw two refl, unfold get_room in gone, find-erase_self uid _)
