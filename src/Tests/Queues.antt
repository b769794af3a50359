-- ===== src/Tests/Queues.antt =====
-- The lobby's threads on concrete schedules.
use ki_han_server_distribute.Base.{ℕ, some, [], ◌∷◌, ◌≡◌, refl, nat_eq, int_eq, map}
use ki_han_server_distribute.Base.Map.{find, set}
use ki_han_server_distribute.Proto.{GatewayResponse, GatewayRequest}
use ki_han_server_distribute.Room.{add_player}
use ki_han_server_distribute.Manager.{empty_manager, get_or_create_room}
use ki_han_server_distribute.Control.{create_room}
use ki_han_server_distribute.Control.Rooms.{initial}
use ki_han_server_distribute.Threads.{◌>>=◌}
use ki_han_server_distribute.Threads.Pool.{begin, next, starts}
use ki_han_server_distribute.Threads.Schedule.{Run, run, turn_of}
use ki_han_server_distribute.Lobby.{
  subscribe_end, push_room, push_to_gateway, take_pair, enqueue, subscribe_begin, nickname_of,
  Lobby, init_service,
}
use ki_han_server_distribute.Db.{get_player_data}
use ki_han_server_distribute.Lobby.Online.{LobbyInv}
use ki_han_server_distribute.Lobby.Matching.{game_server}
use ki_han_server_distribute.Lobby.Locks.{subscribe_task, handle_task}
use ki_han_server_distribute.Lobby.Locks.Server.{
  LobbyThread, requests, subscribes, lobby_threads_keep,
}
use ki_han_server_distribute.Base.Bytes.{codes}
use ki_han_server_distribute.Tests.{byte_codec, byte_lobby_codec, same_name, tree_json}
use ki_han_server_distribute.Tests.Threads.{request}

-- The lobby in front of this game server.
abbrev fresh_lobby : Lobby
fresh_lobby = record {
  service = init_service;
  database = record { session = some 0; db_name = codes "kihan" };
  game = initial;
}

abbrev annas_match : GatewayRequest
annas_match = request 70 7 1005 (1 ∷ [])

abbrev berts_match : GatewayRequest
berts_match = request 90 9 1005 (2 ∷ [])

-- The gateway's subscription at 2, the requests of the players at 1 and 0.
abbrev lobby_threads : Run LobbyThread fresh_lobby
lobby_threads = record {
  last = _;
  reach =
      next (next (next begin (starts _ (subscribes 5 refl))) (starts _ (requests annas_match refl)))
        (starts _ (requests berts_match refl));
}

-- Anna queues between the two sections of Bert's request, and the gateway goes before Bert's push.
abbrev lobby_run : Run LobbyThread fresh_lobby
lobby_run = run (2 ∷ 0 ∷ 1 ∷ 1 ∷ 0 ∷ 0 ∷ 0 ∷ 2 ∷ 0 ∷ []) lobby_threads

abbrev pushed_to : ℕ × GatewayResponse → ℕ × ℕ
pushed_to (w, r) = (w, r.conn_id)

-- The gateway leaves between the two pushes: only one of the two players is told.
one_told_test : map pushed_to lobby_run.last.state.service.pushed ≡ (5, 70) ∷ []
unfolding run ◌>>=◌ turn_of subscribe_task handle_task take_pair enqueue subscribe_begin
    init_service nickname_of get_player_data create_room add_player find get_or_create_room initial
    empty_manager set push_room push_to_gateway subscribe_end
one_told_test = refl

lobby_threads_keep_example : LobbyInv lobby_run.last.state.service
lobby_threads_keep_example = lobby_threads_keep refl lobby_run.reach
