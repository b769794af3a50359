-- ===== src/Lobby/Locks/Alone.antt =====
-- A lobby handler whose sections nothing comes between is the handler in one step.
use ki_han_server_distribute.Base.{
  ℕ, pos, Bool, true, false, Option, none, some, ◌≡◌, refl, if◌then◌else◌, ◌==◌, nat_eq, int_eq,
}
use ki_han_server_distribute.Base.Bytes.{Bytes}
use ki_han_server_distribute.Proto.{GatewayRequest, GatewayResponse, CreateRoomRsp}
use ki_han_server_distribute.LobbyProto.{LobbyCodec, CreateRoleReq, MatchGameReq}
use ki_han_server_distribute.Json.{Json}
use ki_han_server_distribute.Db.{Database, PlayerData, get_player_data}
use ki_han_server_distribute.Lobby.{
  Service, MatchPlayer, Lobby, GameStub, Handled, registered, login_with, of_service, handle_login,
  handle_logout, created, create_role_for, handle_create_role, announce, push_room, push_failure,
  request_room, matched, match_with, match_game_for, handle_match_game, handle_match_stop,
  handle_get_player_data, handle_get_online_count, handle_request, empty_response, player_list,
}
use ki_han_server_distribute.Threads.{ret, alone, alone_then, ◌>>=◌, ◌>>◌}
use ki_han_server_distribute.Lobby.Locks.{
  Handler, edit_service, login_found, login_task, logout_task, create_role_with, queue_up, ask_room,
  announce_task, room_task, matched_task, match_game_with, match_stop_task, player_data_task,
  online_count_task, handle_task,
}

module _ ⦃pb : LobbyCodec⦄ ⦃js : Json⦄ ⦃db : Database⦄ ⦃stub : GameStub⦄ where
  -- What a handler alone does.
  abbrev Does : Handler → Lobby → Handled → Type 0
  Does t w (w', rsp) = alone t w ≡ some (rsp, w')

  login_found-alone :
      (uid : ℕ) (o : Option PlayerData) (rsp : GatewayResponse) (w : Lobby)
      → Does (login_found uid o rsp) w (of_service w (login_with uid o (w.service, rsp)))
  unfolding login_found login_with of_service alone ◌>>=◌
  login_found-alone uid none rsp w = refl
  login_found-alone uid (some d) rsp w = refl

  either-alone :
      (b : Bool) (t u : Handler) (w : Lobby) (x y : Handled)
      → Does t w x
      → Does u w y
      → Does (if b then t else u) w (if b then x else y)
  either-alone true t u w x y l r = l
  either-alone false t u w x y l r = r

  login_task-alone :
      (req : GatewayRequest) (rsp : GatewayResponse) (w : Lobby)
      → Does (login_task req rsp) w (handle_login req w rsp)
  unfolding login_task handle_login alone ◌>>=◌
  login_task-alone req rsp w =
      either-alone (pb.parse_login_req req.payload) _ _ w _ _
        (login_found-alone req.uid (registered (get_player_data w.database req.uid)) rsp w) refl

  create_role-alone :
      (req : GatewayRequest) (o : Option CreateRoleReq) (rsp : GatewayResponse) (w : Lobby)
      → Does (create_role_with req o rsp) w (create_role_for req o w rsp)
  unfolding create_role_with create_role_for created alone
  create_role-alone req none rsp w = refl
  create_role-alone req (some role) rsp w = refl

  edits_if-alone :
      (b : Bool) (f f' k k' : Service → Service) (w : Lobby)
      → alone (if b then edit_service f >> edit_service f' else edit_service k >> edit_service k') w
        ≡ some (tt, record w { service = if b then f' (f w.service) else k' (k w.service) })
  unfolding alone ◌>>=◌
  edits_if-alone true f f' k k' w = refl
  edits_if-alone false f f' k k' w = refl

  -- The two pushes.
  announce_task-alone :
      (o : Option CreateRoomRsp) (p1 p2 : MatchPlayer) (json : Bytes) (w : Lobby)
      → alone (announce_task o p1 p2 json) w
        ≡ some (tt, record w { service = announce o p1 p2 json w.service })
  unfolding announce_task announce alone ◌>>=◌
  announce_task-alone none p1 p2 json w = refl
  announce_task-alone (some room) p1 p2 json w =
      edits_if-alone (room.err_code == pos 0) (push_room p1 1 room json) (push_room p2 2 room json)
        (push_failure p1) (push_failure p2) w

  room_task-alone :
      (o : Option Bytes) (p1 p2 : MatchPlayer) (rsp : GatewayResponse) (w : Lobby)
      → Does
          (room_task o p1 p2 rsp)
          w
          (elim o [ none ↦ (w, none) | some json ↦ (request_room p1 p2 json w, some rsp) ])
  unfolding room_task request_room ask_room alone ◌>>=◌
  room_task-alone none p1 p2 rsp w = refl
  room_task-alone (some json) p1 p2 rsp w =
      let (server, room) = stub.create_room w.game (record { player_list_json = json }) in
      alone_then (announce_task room p1 p2 json) (λ a. ret (some rsp)) (record w { game = server })
        _ tt (announce_task-alone room p1 p2 json (record w { game = server }))

  matched_task-alone :
      (o : Option (MatchPlayer × MatchPlayer)) (rsp : GatewayResponse) (w : Lobby)
      → Does (matched_task o rsp) w (matched o w rsp)
  unfolding matched_task matched alone
  matched_task-alone none rsp w = refl
  matched_task-alone (some (p1, p2)) rsp w =
      room_task-alone (js.dump (player_list p1 p2)) p1 p2 rsp w

  match_game-alone :
      (req : GatewayRequest) (o : Option MatchGameReq) (rsp : GatewayResponse) (w : Lobby)
      → Does (match_game_with req o rsp) w (match_game_for req o w rsp)
  unfolding match_game_with match_game_for match_with queue_up alone ◌>>=◌
  match_game-alone req none rsp w = refl
  match_game-alone req (some game) rsp w = matched_task-alone _ _ _

  -- A request to the lobby whose sections nothing comes between does what HandleRequest does in one
  -- step: the same state, the same pushes, and the same response, or none.
  pub handle_task-alone :
      (req : GatewayRequest) (w : Lobby)
      → let (w', rsp) = handle_request req w in alone (handle_task req) w ≡ some (rsp, w')
  unfolding handle_task handle_request logout_task handle_logout handle_create_role
      handle_match_game match_stop_task handle_match_stop player_data_task handle_get_player_data
      online_count_task handle_get_online_count of_service alone ◌>>=◌
  handle_task-alone req w =
      let rsp = empty_response req in
      either-alone (req.cmd_id == 1001) _ _ w _ _ (login_task-alone req rsp w) (
        either-alone (req.cmd_id == 1002) _ _ w _ _ refl (
          either-alone (req.cmd_id == 1003) _ _ w _ _
            (create_role-alone req (pb.parse_create_role_req req.payload) rsp w)
            (either-alone (req.cmd_id == 1005) _ _ w _ _
              (match_game-alone req (pb.parse_match_game_req req.payload) rsp w)
              (either-alone (req.cmd_id == 1006) _ _ w _ _ refl (
                either-alone (req.cmd_id == 1008) _ _ w _ _ refl
                  (either-alone (req.cmd_id == 1009) _ _ w _ _ refl refl))))))
