-- ===== src/Service.antt =====
-- game_server/src/game_service.cpp: the battle stream, between the gateway and the rooms.
-- A request is handled as one step. `none` is a fault: an exception that leaves the handler, or a
-- null player that is dereferenced.
pub mod Safety
pub mod Finish
pub mod Reconnect
use ki_han_server_distribute.Base.{
  ℕ, ℤ, pos, negsuc, not, Option, none, some, List, [], ◌∷◌, if◌then◌else◌, ◌==◌, nat_eq, length,
}
use ki_han_server_distribute.Base.Bytes.{Bytes}
use ki_han_server_distribute.Proto.{
  Codec, GatewayRequest, EnterRoomReq, EnterRoomRsp, PlayerReadyReq, GameOverReq,
}
use ki_han_server_distribute.Sessions.{Session, register_session, unregister_session, send}
use ki_han_server_distribute.Room.{
  Player, is_gaming, has_player, get_player, get_player_uids, build_snapshot_json, mark_ready,
  push_input, stop_game,
}
use ki_han_server_distribute.Manager.{
  Manager, assign, apply_method, get_room, get_room_by_uid, map_uid_to_room, unmap_uid,
  destroy_room,
}

infixl 5 ◌>>=◌
abbrev ◌>>=◌ {ℓ κ} : {A : Type ℓ} {B : Type κ} → Option A → (A → Option B) → Option B
none >>= f = none
some a >>= f = f a

-- GAME_ERR_ROOM_NOT_EXIST
abbrev pub game_err_room_not_exist : ℤ
game_err_room_not_exist = negsuc 3000

-- `session_stream->Send`
unfoldable pub reply : Session → ℕ → Bytes → Manager → Manager
unfolding send
reply s cmd_id payload m = record m { net = send s cmd_id payload m.net }

-- `room && room->HasPlayer(cur_uid)`
unfoldable pub room_with : Manager → ℤ → ℕ → Option ℕ
room_with m room_id uid = elim (get_room m room_id) [
  | none ↦ none
  | some p ↦ if has_player (m.objects p) uid then some p else none
]

pub refused : EnterRoomRsp
refused = record { err_code = game_err_room_not_exist; snapshot = none; my_game_id = pos 0 }

pub entered : ℤ → Bytes → Player → EnterRoomRsp
entered room_id json player = record {
  err_code = pos 0;
  snapshot = some (record { room_id = room_id; player_list_json = json });
  my_game_id = player.game_id;
}

module _ ⦃pb : Codec⦄ where
  -- 2001, EnterRoomReq
  unfoldable pub enter_found : Session → ℕ → ℤ → Option ℕ → Manager → Option Manager
  unfolding refused entered
  enter_found s uid room_id none m = some (reply s 2001 (pb.serialize_enter_room_rsp refused) m)
  enter_found s uid room_id (some p) m = do
    json ← build_snapshot_json (m.objects p)
    player ← get_player (m.objects p) uid
    some (
        reply s 2001 (pb.serialize_enter_room_rsp (entered room_id json player))
          (map_uid_to_room uid room_id m))

  unfoldable pub enter_room : Session → ℕ → Option EnterRoomReq → Manager → Option Manager
  unfolding enter_found room_with
  enter_room s uid none m = some m
  enter_room s uid (some req) m = enter_found s uid req.room_id (room_with m req.room_id uid) m

  -- 2002, PlayerReadyReq
  unfoldable pub ready_found : Session → ℕ → Option ℕ → Manager → Manager
  ready_found s uid none m =
      reply s 2002 (pb.serialize_player_ready_rsp (record { err_code = game_err_room_not_exist })) m
  ready_found s uid (some p) m =
      reply s 2002 (pb.serialize_player_ready_rsp (record { err_code = pos 0 }))
        (assign p (mark_ready (m.objects p) uid) m)

  unfoldable pub player_ready : Session → ℕ → Option PlayerReadyReq → Manager → Manager
  unfolding ready_found room_with
  player_ready s uid none m = m
  player_ready s uid (some req) m = ready_found s uid (room_with m req.room_id uid) m

  -- 2004, PlayerFrameInput
  unfoldable pub input_found : ℕ → Bytes → Option ℕ → Manager → Manager
  input_found uid payload none m = m
  input_found uid payload (some p) m = assign p (push_input (m.objects p) uid payload) m

  unfoldable pub player_frame_input : ℕ → Bytes → Manager → Manager
  unfolding input_found
  player_frame_input uid payload m =
      if length payload == 6 then input_found uid payload (get_room_by_uid m uid) m else m

  -- `room->StopGame(winner); DestroyRoom(rid)`
  unfoldable pub finish_room : ℕ → ℕ → Manager → Manager
  finish_room p winner_uid m =
      destroy_room (m.objects p).id (apply_method p (λ r n. stop_game r winner_uid n) m)

  -- 2006, GameOverReq
  unfoldable pub over_found : Session → ℕ → Option ℕ → Manager → Manager
  unfolding finish_room
  over_found s winner_uid none m =
      reply s 2006 (pb.serialize_game_over_rsp (record { err_code = game_err_room_not_exist })) m
  over_found s winner_uid (some p) m =
      reply s 2006 (pb.serialize_game_over_rsp (record { err_code = pos 0 }))
        (finish_room p winner_uid m)

  unfoldable pub game_over : Session → ℕ → Option GameOverReq → Manager → Manager
  unfolding over_found
  game_over s uid none m = m
  game_over s uid (some req) m = over_found s req.winner_uid (get_room_by_uid m uid) m

  -- The lambda that handles one request of the stream whose session is `s`.
  unfoldable pub process_req : Session → GatewayRequest → Manager → Option Manager
  unfolding enter_room player_ready player_frame_input game_over
  process_req s req m =
      if req.cmd_id == 2001
      then enter_room s req.uid (pb.parse_enter_room_req req.payload) m
      else if req.cmd_id == 2002
      then some (player_ready s req.uid (pb.parse_player_ready_req req.payload) m)
      else if req.cmd_id == 2004
      then some (player_frame_input req.uid req.payload m)
      else if req.cmd_id == 2006
      then some (game_over s req.uid (pb.parse_game_over_req req.payload) m)
      else some m

  -- The first request of a stream binds the session of its uid to the stream.
  unfoldable pub session_of : ℕ → GatewayRequest → Session
  session_of stream req = record { stream = stream; conn_id = req.conn_id }

  unfoldable pub open_stream : Session → ℕ → Manager → Manager
  unfolding register_session
  open_stream s uid m = record m { net = register_session uid s m.net }

  unfoldable pub process_all : Session → List GatewayRequest → Manager → Option Manager
  process_all s [] m = some m
  process_all s (req ∷ reqs) m = elim (process_req s req m) [
    | none ↦ none
    | some m' ↦ process_all s reqs m'
  ]

  -- The first player other than the one that left, or 0.
  unfoldable pub other_player : ℕ → List ℕ → ℕ
  other_player uid [] = 0
  other_player uid (r_uid ∷ rest) = if not (r_uid == uid) then r_uid else other_player uid rest

  unfoldable pub abandon : ℕ → Option ℕ → Manager → Manager
  unfolding finish_room other_player
  abandon uid none m = m
  abandon uid (some p) m =
      if is_gaming (m.objects p).state
      then finish_room p (other_player uid (get_player_uids (m.objects p))) m
      else m

  -- What StreamBattle does when the stream of `uid` has ended.
  unfoldable pub close_stream : ℕ → Manager → Manager
  unfolding abandon unmap_uid unregister_session
  close_stream uid m =
      let m' = unmap_uid uid (abandon uid (get_room_by_uid m uid) m) in
      record m' { net = unregister_session uid m'.net }

  -- A whole stream with no other step in between: the requests that it reads until it ends.
  unfoldable pub stream_battle : ℕ → List GatewayRequest → Manager → Option Manager
  unfolding session_of open_stream process_all close_stream
  stream_battle stream [] m = some m
  stream_battle stream (req ∷ reqs) m = do
    m' ←
        process_all (session_of stream req) (req ∷ reqs)
          (open_stream (session_of stream req) req.uid m)
    some (close_stream req.uid m')
