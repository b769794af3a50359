-- ===== src/Locks.antt =====
-- The handlers of game_server/src/game_service.cpp and room_manager.cpp at the grain of their
-- critical sections: one section per call that takes a mutex, and one per access without one
-- (HasPlayer, IsFull, GetState, and the write of `ready` through the pointer of GetPlayer). A
-- method that broadcasts holds the room's mutex over the one of the sessions, and GetRoomByUid the
-- one of the mapping over the one of `rooms_`, so that each is one section too. Nothing waits for
-- a lock under `rooms_mutex_` or `sessions_mutex_`.
pub mod Rooms
pub mod Grows
pub mod Stays
pub mod Keeps
pub mod Streams
pub mod Calls
pub mod Server
pub mod Alone
pub mod AloneCalls
pub mod Races
use ki_han_server_distribute.Base.{
  ℕ, ◌+◌, ℤ, pos, Bool, true, false, not, Option, none, some, List, [], ◌∷◌, ltb, if◌then◌else◌,
  ◌==◌, nat_eq, length,
}
use ki_han_server_distribute.Base.Bytes.{Bytes}
use ki_han_server_distribute.Proto.{
  Codec, GatewayRequest, EnterRoomReq, PlayerReadyReq, GameOverReq, CreateRoomReq, CreateRoomRsp,
}
use ki_han_server_distribute.Json.{Json}
use ki_han_server_distribute.Sessions.{Session, unregister_session}
use ki_han_server_distribute.Room.{
  RoomState, is_gaming, has_player, get_player, get_player_uids, build_snapshot_json, mark_ready,
  push_input, stop_game,
}
use ki_han_server_distribute.Manager.{
  Manager, assign, apply_method, get_room, get_room_by_uid, get_or_create_room, map_uid_to_room,
  unmap_uid, remove_room, rooms_to_process,
}
use ki_han_server_distribute.Service.{
  reply, refused, entered, session_of, open_stream, other_player, game_err_room_not_exist,
}
use ki_han_server_distribute.Control.{Game, read_player, respond, initial_next_room_id}
use ki_han_server_distribute.Threads.{Task, ret, fault, atomic, look, change, must, ◌>>=◌, ◌>>◌}

-- A section of RoomManager, of a room or of the sessions.
abbrev pub read {κ} : {A : Type κ} → (Manager → A) → Task Game A
read f = look (λ g. f g.manager)

abbrev pub edit : (Manager → Manager) → Task Game (Unit {0})
edit f = change (λ g. record g { manager = f g.manager })

-- `for (uint32_t uid : uids) UnmapUid(uid);`
unfoldable pub unmap_each : List ℕ → Task Game (Unit {0})
unmap_each [] = ret tt
unmap_each (uid ∷ uids) = edit (unmap_uid uid) >> unmap_each uids

pub destroy_found : Option ℕ → ℤ → Task Game (Unit {0})
unfolding unmap_each
destroy_found none room_id = ret tt
destroy_found (some p) room_id = do
  uids ← read (λ m. get_player_uids (m.objects p))
  unmap_each uids
  edit (remove_room room_id)

-- DestroyRoom
unfoldable pub destroy_room_task : ℤ → Task Game (Unit {0})
unfolding destroy_found
destroy_room_task room_id = do room ← read (λ m. get_room m room_id); destroy_found room room_id

module _ ⦃pb : Codec⦄ where
  -- 2001, EnterRoomReq
  pub enter_seated : Session → ℕ → ℤ → ℕ → Bool → Task Game (Unit {0})
  enter_seated s uid room_id p false = edit (reply s 2001 (pb.serialize_enter_room_rsp refused))
  enter_seated s uid room_id p true = do
    built ← read (λ m. build_snapshot_json (m.objects p))
    json ← must built
    found ← read (λ m. get_player (m.objects p) uid)
    player ← must found
    edit (map_uid_to_room uid room_id)
    edit (reply s 2001 (pb.serialize_enter_room_rsp (entered room_id json player)))

  pub enter_with : Session → ℕ → ℤ → Option ℕ → Task Game (Unit {0})
  unfolding enter_seated
  enter_with s uid room_id none = edit (reply s 2001 (pb.serialize_enter_room_rsp refused))
  enter_with s uid room_id (some p) = do
    here ← read (λ m. has_player (m.objects p) uid)
    enter_seated s uid room_id p here

  pub enter_task : Session → ℕ → Option EnterRoomReq → Task Game (Unit {0})
  unfolding enter_with
  enter_task s uid none = ret tt
  enter_task s uid (some req) = do
    room ← read (λ m. get_room m req.room_id)
    enter_with s uid req.room_id room

  -- 2002, PlayerReadyReq
  pub ready_seated : Session → ℕ → ℕ → Bool → Task Game (Unit {0})
  ready_seated s uid p false =
      edit (
        reply s 2002
          (pb.serialize_player_ready_rsp (record { err_code = game_err_room_not_exist })))
  ready_seated s uid p true = do
    found ← read (λ m. get_player (m.objects p) uid)
    player ← must found
    edit (λ m. assign p (mark_ready (m.objects p) uid) m)
    edit (reply s 2002 (pb.serialize_player_ready_rsp (record { err_code = pos 0 })))

  pub ready_with : Session → ℕ → Option ℕ → Task Game (Unit {0})
  unfolding ready_seated
  ready_with s uid none =
      edit (
        reply s 2002
          (pb.serialize_player_ready_rsp (record { err_code = game_err_room_not_exist })))
  ready_with s uid (some p) = do
    here ← read (λ m. has_player (m.objects p) uid)
    ready_seated s uid p here

  pub ready_task : Session → ℕ → Option PlayerReadyReq → Task Game (Unit {0})
  unfolding ready_with
  ready_task s uid none = ret tt
  ready_task s uid (some req) = do room ← read (λ m. get_room m req.room_id); ready_with s uid room

  -- 2004, PlayerFrameInput
  pub input_with : ℕ → Bytes → Option ℕ → Task Game (Unit {0})
  input_with uid payload none = ret tt
  input_with uid payload (some p) = edit (λ m. assign p (push_input (m.objects p) uid payload) m)

  pub input_task : ℕ → Bytes → Task Game (Unit {0})
  unfolding input_with
  input_task uid payload =
      if length payload == 6
      then (do room ← read (λ m. get_room_by_uid m uid); input_with uid payload room)
      else ret tt

  -- `int32_t rid = room->GetId(); room->StopGame(winner); DestroyRoom(rid);` (the id of a room
  -- never changes)
  unfoldable pub finish_task : ℕ → ℕ → Task Game (Unit {0})
  unfolding destroy_room_task
  finish_task p winner_uid = do
    rid ← read (λ m. (m.objects p).id)
    edit (apply_method p (λ r n. stop_game r winner_uid n))
    destroy_room_task rid

  -- 2006, GameOverReq
  pub over_with : Session → ℕ → Option ℕ → Task Game (Unit {0})
  unfolding finish_task
  over_with s winner_uid none =
      edit
        (reply s 2006 (pb.serialize_game_over_rsp (record { err_code = game_err_room_not_exist })))
  over_with s winner_uid (some p) = do
    finish_task p winner_uid
    edit (reply s 2006 (pb.serialize_game_over_rsp (record { err_code = pos 0 })))

  unfoldable pub over_task : Session → ℕ → Option GameOverReq → Task Game (Unit {0})
  unfolding over_with
  over_task s uid none = ret tt
  over_task s uid (some req) = do
    room ← read (λ m. get_room_by_uid m uid)
    over_with s req.winner_uid room

  -- The lambda that handles one request.
  unfoldable pub request_task : Session → GatewayRequest → Task Game (Unit {0})
  unfolding enter_task ready_task input_task over_task
  request_task s req =
      if req.cmd_id == 2001
      then enter_task s req.uid (pb.parse_enter_room_req req.payload)
      else if req.cmd_id == 2002
      then ready_task s req.uid (pb.parse_player_ready_req req.payload)
      else if req.cmd_id == 2004
      then input_task req.uid req.payload
      else if req.cmd_id == 2006
      then over_task s req.uid (pb.parse_game_over_req req.payload)
      else ret tt

  unfoldable pub requests_task : Session → List GatewayRequest → Task Game (Unit {0})
  unfolding request_task
  requests_task s [] = ret tt
  requests_task s (req ∷ reqs) = request_task s req >> requests_task s reqs

  -- What StreamBattle does behind its last request.
  pub abandon_gaming : ℕ → ℕ → Bool → Task Game (Unit {0})
  unfolding finish_task other_player
  abandon_gaming uid p false = ret tt
  abandon_gaming uid p true = do
    uids ← read (λ m. get_player_uids (m.objects p))
    finish_task p (other_player uid uids)

  pub abandon_with : ℕ → Option ℕ → Task Game (Unit {0})
  unfolding abandon_gaming
  abandon_with uid none = ret tt
  abandon_with uid (some p) = do
    state ← read (λ m. (m.objects p).state)
    abandon_gaming uid p (is_gaming state)

  unfoldable pub close_task : ℕ → Task Game (Unit {0})
  unfolding abandon_with
  close_task uid = do
    room ← read (λ m. get_room_by_uid m uid)
    abandon_with uid room
    edit (unmap_uid uid)
    edit (λ m. record m { net = unregister_session uid m.net })

  -- StreamBattle
  unfoldable pub stream_task : ℕ → List GatewayRequest → Task Game (Unit {0})
  unfolding session_of open_stream requests_task close_task
  stream_task stream [] = ret tt
  stream_task stream (req ∷ reqs) = do
    edit (open_stream (session_of stream req) req.uid)
    requests_task (session_of stream req) (req ∷ reqs)
    close_task req.uid
