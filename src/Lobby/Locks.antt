-- ===== src/Lobby/Locks.antt =====
-- The handlers of lobby_server/src/lobby_service.cpp at the grain of their critical sections: one
-- for each use of `online_mutex_`, `match_mutex_`, `push_mutex_`, the mutex of DBManager, and each
-- call of the game server. ClientDisconnect takes `match_mutex_` inside `online_mutex_` and is one
-- section. A thread returns its response, or `none` where an exception leaves the handler.
pub mod Alone
pub mod Server
use ki_han_server_distribute.Base.{
  ℕ, pos, Bool, true, false, Option, none, some, List, [], ◌∷◌, if◌then◌else◌, ◌==◌, nat_eq, int_eq,
  length,
}
use ki_han_server_distribute.Base.Bytes.{Bytes}
use ki_han_server_distribute.Proto.{GatewayRequest, GatewayResponse, CreateRoomRsp}
use ki_han_server_distribute.LobbyProto.{LobbyCodec, CreateRoleReq, MatchGameReq}
use ki_han_server_distribute.Json.{Json}
use ki_han_server_distribute.Db.{Database, PlayerData, create_player, get_player_data}
use ki_han_server_distribute.Lobby.{
  Service, MatchPlayer, Lobby, GameStub, answer, player_info, registered, nickname_of,
  insert_online, erase_online, remove_queued, enqueue, take_pair, to_int32, push_room, push_failure,
  player_list, player_data_for, empty_response, client_disconnect, subscribe_begin, subscribe_end,
  lobby_err_ok, lobby_err_player_exists, lobby_err_player_not_exists,
}
use ki_han_server_distribute.Threads.{Task, ret, atomic, look, change, ◌>>=◌, ◌>>◌}

module _ ⦃pb : LobbyCodec⦄ ⦃js : Json⦄ ⦃db : Database⦄ ⦃stub : GameStub⦄ where
  abbrev pub Handler : Type 0
  Handler = Task Lobby (Option GatewayResponse)

  -- A section of the lobby's own members.
  abbrev pub edit_service : (Service → Service) → Task Lobby (Unit {0})
  edit_service f = change (λ w. record w { service = f w.service })

  unfoldable pub login_found : ℕ → Option PlayerData → GatewayResponse → Handler
  login_found uid none rsp = ret (
      some (
        answer rsp 1001 (
          pb.serialize_login_rsp
            (record { err_code = lobby_err_player_not_exists; player = none }))))
  login_found uid (some d) rsp =
      edit_service (insert_online uid)
      >> ret (
          some (
            answer rsp 1001 (
              pb.serialize_login_rsp
                (record { err_code = lobby_err_ok; player = some (player_info d) }))))

  unfoldable pub login_task : GatewayRequest → GatewayResponse → Handler
  unfolding login_found
  login_task req rsp =
      if pb.parse_login_req req.payload
      then (do
        data_ ← look (λ w. get_player_data w.database req.uid)
        login_found req.uid (registered data_) rsp)
      else ret (some rsp)

  unfoldable pub logout_task : GatewayRequest → GatewayResponse → Handler
  logout_task req rsp =
      edit_service (erase_online req.uid)
      >> ret (
          some
            (record (answer rsp 1002
              (pb.serialize_logout_rsp (record { err_code = lobby_err_ok }))) {
                kick_client = true;
              }))

  unfoldable pub create_role_with :
      GatewayRequest → Option CreateRoleReq → GatewayResponse → Handler
  create_role_with req none rsp = ret (some rsp)
  create_role_with req (some role) rsp =
      atomic (λ w. record w { database = (create_player w.database req.uid role.nickname).0 })
        (λ w.
          let success = (create_player w.database req.uid role.nickname).1 in
          ret (
            some (
              answer rsp 1003 (
                pb.serialize_create_role_rsp (record {
                  err_code = if success then lobby_err_ok else lobby_err_player_exists;
                })))))

  -- The section of `match_mutex_` in HandleMatchGame.
  unfoldable pub queue_up : MatchPlayer → Task Lobby (Option (MatchPlayer × MatchPlayer))
  queue_up p =
      atomic
        (λ w. record w {
          service = record w.service {
            match_queue = (take_pair (enqueue p w.service.match_queue)).1;
          };
        })
        (λ w. ret (take_pair (enqueue p w.service.match_queue)).0)

  -- `game_stub_->CreateRoom`
  unfoldable pub ask_room : Bytes → Task Lobby (Option CreateRoomRsp)
  ask_room json =
      atomic
        (λ w. record w { game = (stub.create_room w.game (record { player_list_json = json })).0 })
        (λ w. ret (stub.create_room w.game (record { player_list_json = json })).1)

  unfoldable pub announce_task :
      Option CreateRoomRsp → MatchPlayer → MatchPlayer → Bytes → Task Lobby (Unit {0})
  announce_task none p1 p2 json = edit_service (push_failure p1) >> edit_service (push_failure p2)
  announce_task (some room) p1 p2 json =
      if room.err_code == pos 0
      then edit_service (push_room p1 1 room json) >> edit_service (push_room p2 2 room json)
      else edit_service (push_failure p1) >> edit_service (push_failure p2)

  unfoldable pub room_task : Option Bytes → MatchPlayer → MatchPlayer → GatewayResponse → Handler
  unfolding ask_room announce_task
  room_task none p1 p2 rsp = ret none
  room_task (some json) p1 p2 rsp = do
    room ← ask_room json
    announce_task room p1 p2 json
    ret (some rsp)

  unfoldable pub matched_task : Option (MatchPlayer × MatchPlayer) → GatewayResponse → Handler
  unfolding room_task player_list
  matched_task none rsp = ret (some rsp)
  matched_task (some (p1, p2)) rsp = room_task (js.dump (player_list p1 p2)) p1 p2 rsp

  unfoldable pub match_game_with : GatewayRequest → Option MatchGameReq → GatewayResponse → Handler
  unfolding queue_up matched_task
  match_game_with req none rsp = ret (some rsp)
  match_game_with req (some game) rsp = do
    data_ ← look (λ w. get_player_data w.database req.uid)
    pair ← queue_up (record {
      uid = req.uid;
      conn_id = req.conn_id;
      character_id = game.character_id;
      nickname = nickname_of data_;
    })
    matched_task pair
        (answer rsp 1005 (pb.serialize_match_game_rsp (record { err_code = lobby_err_ok })))

  unfoldable pub match_stop_task : GatewayRequest → GatewayResponse → Handler
  match_stop_task req rsp =
      edit_service (λ l. record l { match_queue = remove_queued req.uid l.match_queue })
      >> ret (
          some (
            answer rsp 1006
              (pb.serialize_match_stop_rsp (record { err_code = lobby_err_ok; success = true }))))

  unfoldable pub player_data_task : GatewayRequest → GatewayResponse → Handler
  player_data_task req rsp = do
    data_ ← look (λ w. get_player_data w.database req.uid)
    ret (some (player_data_for data_ rsp))

  unfoldable pub online_count_task : GatewayResponse → Handler
  online_count_task rsp = do
    count ← look (λ w. to_int32 (length w.service.online_players))
    ret (
        some (
          answer rsp 1009 (
            pb.serialize_get_online_count_rsp
              (record { err_code = lobby_err_ok; online_count = count }))))

  -- HandleRequest
  unfoldable pub handle_task : GatewayRequest → Handler
  unfolding login_task logout_task create_role_with match_game_with match_stop_task player_data_task
      online_count_task empty_response
  handle_task req =
      let rsp = empty_response req in
      if req.cmd_id == 1001
      then login_task req rsp
      else if req.cmd_id == 1002
      then logout_task req rsp
      else if req.cmd_id == 1003
      then create_role_with req (pb.parse_create_role_req req.payload) rsp
      else if req.cmd_id == 1005
      then match_game_with req (pb.parse_match_game_req req.payload) rsp
      else if req.cmd_id == 1006
      then match_stop_task req rsp
      else if req.cmd_id == 1008
      then player_data_task req rsp
      else if req.cmd_id == 1009
      then online_count_task rsp
      else ret (some rsp)

  -- ClientDisconnect
  unfoldable pub disconnect_task : GatewayRequest → Handler
  disconnect_task req = edit_service (client_disconnect req) >> ret none

  -- Subscribe, which waits between its two sections.
  unfoldable pub subscribe_task : ℕ → Handler
  subscribe_task writer =
      edit_service (subscribe_begin writer) >> edit_service subscribe_end >> ret none
