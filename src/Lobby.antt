-- ===== src/Lobby.antt =====
-- lobby_server/src/lobby_service.cpp. A handler is one step from the
-- service and what it calls (the database, the game server) to the state and the response after it;
-- no response is an exception that leaves the handler.
pub mod Online
pub mod Matching
pub mod Queueing
pub mod Login
pub mod Subscribing
pub mod Muted
pub mod Main
pub mod Locks
use ki_han_server_distribute.Base.{
  ℕ, ◌+◌, ◌-◌, ◌%◌, ◌^◌, ℤ, pos, negsuc, Bool, true, false, Option, none, some, List, [], ◌∷◌, ◌++◌,
  ltb, leb, if◌then◌else◌, ◌==◌, nat_eq, int_eq, ◌&&◌, length, elem, erase_first,
}
use ki_han_server_distribute.Base.Bytes.{Bytes, codes, to_string_int}
use ki_han_server_distribute.Proto.{GatewayRequest, GatewayResponse, CreateRoomReq, CreateRoomRsp}
use ki_han_server_distribute.LobbyProto.{LobbyCodec, PlayerInfo, CreateRoleReq, MatchGameReq}
use ki_han_server_distribute.Json.{Json}
use ki_han_server_distribute.Db.{Database, DbManager, PlayerData, create_player, get_player_data}
unfoldable pub use ki_han_server_distribute.LobbyState.{
  init_service, insert_online, erase_online, remove_queued, in_queue, enqueue, take_pair, to_int32,
  pushed_response, push_on, push_to_gateway, subscribe_begin, subscribe_end, client_disconnect,
}
pub use ki_han_server_distribute.LobbyState.{
  lobby_err_ok, lobby_err_player_exists, lobby_err_player_not_exists, MatchPlayer, Service,
}

-- The game server behind the stub. `none` is a status other than OK.
pub record GameStub : Type 1 where
  pub Server : Type 0
  pub create_room : Server → CreateRoomReq → Server × Option CreateRoomRsp

-- The response that HandleRequest starts from.
unfoldable pub empty_response : GatewayRequest → GatewayResponse
empty_response req = record { conn_id = req.conn_id; cmd_id = 0; payload = []; kick_client = false }

abbrev pub answer : GatewayResponse → ℕ → Bytes → GatewayResponse
answer rsp cmd_id payload = record rsp { cmd_id = cmd_id; payload = payload }

unfoldable pub player_info : PlayerData → PlayerInfo
player_info d = record { uid = d.uid; nickname = d.nickname; data_json = d.data_json }

unfoldable pub is_empty : Bytes → Bool
is_empty [] = true
is_empty (b ∷ bs) = false

-- The player data that a login accepts: there is a record, and its nickname is not empty.
unfoldable pub registered : Option PlayerData → Option PlayerData
unfolding is_empty
registered none = none
registered (some d) = if is_empty d.nickname then none else some d

unfoldable pub nickname_of : Option PlayerData → Bytes
nickname_of none = codes "Player"
nickname_of (some d) = d.nickname

module _ ⦃pb : LobbyCodec⦄ where
  unfoldable pub login_with :
      ℕ → Option PlayerData → Service × GatewayResponse → Service × GatewayResponse
  unfolding player_info
  login_with uid none (l, rsp) = (
    l,
    answer rsp 1001
        (pb.serialize_login_rsp (record { err_code = lobby_err_player_not_exists; player = none })),
  )
  login_with uid (some d) (l, rsp) = (
    insert_online uid l,
    answer rsp 1001 (
        pb.serialize_login_rsp (record { err_code = lobby_err_ok; player = some (player_info d) })),
  )

  unfoldable pub handle_logout :
      GatewayRequest → Service → GatewayResponse → Service × GatewayResponse
  handle_logout req l rsp = (
    erase_online req.uid l,
    record (answer rsp 1002 (pb.serialize_logout_rsp (record { err_code = lobby_err_ok }))) {
      kick_client = true;
    },
  )

  unfoldable pub handle_match_stop :
      GatewayRequest → Service → GatewayResponse → Service × GatewayResponse
  handle_match_stop req l rsp = (
    record l { match_queue = remove_queued req.uid l.match_queue },
    answer rsp 1006
        (pb.serialize_match_stop_rsp (record { err_code = lobby_err_ok; success = true })),
  )

  unfoldable pub handle_get_online_count : Service → GatewayResponse → GatewayResponse
  unfolding to_int32
  handle_get_online_count l rsp = answer rsp 1009 (
      pb.serialize_get_online_count_rsp
        (record { err_code = lobby_err_ok; online_count = to_int32 (length l.online_players) }))

  -- What the two players of a match are told.
  unfoldable pub push_room : MatchPlayer → ℕ → CreateRoomRsp → Bytes → Service → Service
  push_room p position room json l =
      push_to_gateway p.conn_id 1007
        (pb.serialize_match_game_ntf (record {
          err_code = pos 0;
          room_id = to_string_int room.room_id;
          position = pos position;
          room_snapshot_json = json;
        }))
        l

  unfoldable pub push_failure : MatchPlayer → Service → Service
  push_failure p l =
      push_to_gateway p.conn_id 1007
        (pb.serialize_match_game_ntf
          (record { err_code = negsuc 0; room_id = []; position = pos 0; room_snapshot_json = [] }))
        l

  -- `status.ok() && room_rsp.err_code() == 0`
  unfoldable pub announce :
      Option CreateRoomRsp → MatchPlayer → MatchPlayer → Bytes → Service → Service
  unfolding push_room push_failure
  announce none p1 p2 json l = push_failure p2 (push_failure p1 l)
  announce (some room) p1 p2 json l =
      if room.err_code == pos 0
      then push_room p2 2 room json (push_room p1 1 room json l)
      else push_failure p2 (push_failure p1 l)

-- The service with what it calls.
module _ ⦃pb : LobbyCodec⦄ ⦃js : Json⦄ ⦃db : Database⦄ ⦃stub : GameStub⦄ where
  pub record Lobby : Type 0 where
    pub service : Service
    pub database : DbManager
    pub game : stub.Server

  -- A state with the response, where there is one.
  abbrev pub Handled : Type 0
  Handled = Lobby × Option GatewayResponse

  unfoldable pub of_service : Lobby → Service × GatewayResponse → Handled
  of_service w (l, rsp) = (record w { service = l }, some rsp)

  unfoldable pub handle_login : GatewayRequest → Lobby → GatewayResponse → Handled
  unfolding of_service login_with
  handle_login req w rsp =
      if pb.parse_login_req req.payload
      then of_service w
          (login_with req.uid (registered (get_player_data w.database req.uid)) (w.service, rsp))
      else (w, some rsp)

  unfoldable pub created : Lobby → GatewayResponse → DbManager × Bool → Handled
  created w rsp (d, success) = (
    record w { database = d },
    some (
        answer rsp 1003 (
          pb.serialize_create_role_rsp
            (record { err_code = if success then lobby_err_ok else lobby_err_player_exists }))),
  )

  unfoldable pub create_role_for :
      GatewayRequest → Option CreateRoleReq → Lobby → GatewayResponse → Handled
  unfolding created
  create_role_for req none w rsp = (w, some rsp)
  create_role_for req (some role) w rsp =
      created w rsp (create_player w.database req.uid role.nickname)

  unfoldable pub handle_create_role : GatewayRequest → Lobby → GatewayResponse → Handled
  unfolding create_role_for
  handle_create_role req w rsp = create_role_for req (pb.parse_create_role_req req.payload) w rsp

  -- The JSON list of the two players of a match.
  unfoldable pub player_list : MatchPlayer → MatchPlayer → js.Value
  player_list p1 p2 = js.array (
      js.player_object p1.uid p1.nickname p1.character_id
      ∷ js.player_object p2.uid p2.nickname p2.character_id
      ∷ [])

  unfoldable pub request_room : MatchPlayer → MatchPlayer → Bytes → Lobby → Lobby
  request_room p1 p2 json w =
      let (server, room) = stub.create_room w.game (record { player_list_json = json }) in
      record w { game = server; service = announce room p1 p2 json w.service }

  -- `players.dump()` throws before the game server is asked.
  unfoldable pub matched : Option (MatchPlayer × MatchPlayer) → Lobby → GatewayResponse → Handled
  unfolding request_room
  matched none w rsp = (w, some rsp)
  matched (some (p1, p2)) w rsp = elim (js.dump (player_list p1 p2)) [
    | none ↦ (w, none)
    | some json ↦ (request_room p1 p2 json w, some rsp)
  ]

  unfoldable pub match_with : MatchPlayer → Lobby → GatewayResponse → Handled
  unfolding matched
  match_with p w rsp =
      let (pair, rest) = take_pair (enqueue p w.service.match_queue) in
      matched pair (record w { service = record w.service { match_queue = rest } })
        (answer rsp 1005 (pb.serialize_match_game_rsp (record { err_code = lobby_err_ok })))

  unfoldable pub match_game_for :
      GatewayRequest → Option MatchGameReq → Lobby → GatewayResponse → Handled
  unfolding match_with nickname_of
  match_game_for req none w rsp = (w, some rsp)
  match_game_for req (some game) w rsp =
      match_with
        (record {
          uid = req.uid;
          conn_id = req.conn_id;
          character_id = game.character_id;
          nickname = nickname_of (get_player_data w.database req.uid);
        })
        w rsp

  unfoldable pub handle_match_game : GatewayRequest → Lobby → GatewayResponse → Handled
  unfolding match_game_for
  handle_match_game req w rsp = match_game_for req (pb.parse_match_game_req req.payload) w rsp

  unfoldable pub player_data_for : Option PlayerData → GatewayResponse → GatewayResponse
  unfolding player_info
  player_data_for none rsp = answer rsp 1008 (
      pb.serialize_get_player_data_rsp
        (record { err_code = lobby_err_player_not_exists; player = none }))
  player_data_for (some d) rsp = answer rsp 1008 (
      pb.serialize_get_player_data_rsp
        (record { err_code = lobby_err_ok; player = some (player_info d) }))

  unfoldable pub handle_get_player_data : GatewayRequest → Lobby → GatewayResponse → GatewayResponse
  unfolding player_data_for
  handle_get_player_data req w rsp = player_data_for (get_player_data w.database req.uid) rsp

  unfoldable pub handle_request : GatewayRequest → Lobby → Handled
  unfolding handle_login handle_logout handle_create_role handle_match_game handle_match_stop
      handle_get_player_data handle_get_online_count of_service empty_response
  handle_request req w =
      let rsp = empty_response req in
      if req.cmd_id == 1001
      then handle_login req w rsp
      else if req.cmd_id == 1002
      then of_service w (handle_logout req w.service rsp)
      else if req.cmd_id == 1003
      then handle_create_role req w rsp
      else if req.cmd_id == 1005
      then handle_match_game req w rsp
      else if req.cmd_id == 1006
      then of_service w (handle_match_stop req w.service rsp)
      else if req.cmd_id == 1008
      then (w, some (handle_get_player_data req w rsp))
      else if req.cmd_id == 1009
      then (w, some (handle_get_online_count w.service rsp))
      else (w, some rsp)
