-- ===== src/Lobby/Locks/Server.antt =====
-- All threads of the lobby server together, interleaved section by section.
use ki_han_server_distribute.Base.{
  ℕ, Bool, true, false, Option, none, some, ◌≡◌, arith, if◌then◌else◌, ◌==◌, nat_eq, int_eq,
}
use ki_han_server_distribute.Base.Bytes.{Bytes}
use ki_han_server_distribute.Proto.{GatewayRequest, GatewayResponse, CreateRoomRsp}
use ki_han_server_distribute.LobbyProto.{LobbyCodec, CreateRoleReq, MatchGameReq}
use ki_han_server_distribute.Json.{Json}
use ki_han_server_distribute.Db.{Database, PlayerData}
use ki_han_server_distribute.Lobby.Online.{
  LobbyInv, init_service-LobbyInv, insert_online-LobbyInv, erase_online-LobbyInv,
  length-remove_queued-le, length-take_pair, SamePlayers-LobbyInv, push-SamePlayers,
  client_disconnect-LobbyInv,
}
use ki_han_server_distribute.Lobby.{
  Service, MatchPlayer, Lobby, GameStub, init_service, remove_queued, client_disconnect,
  subscribe_begin, subscribe_end, push_room, push_failure, empty_response,
}
use ki_han_server_distribute.Threads.{Task, ret, look, ◌>>=◌, ◌>>◌}
use ki_han_server_distribute.Threads.Rely.{Rely, Safe, Safe-sequence}
use ki_han_server_distribute.Threads.Pool.{Pool, PoolReach, PoolReach-Safe}
use ki_han_server_distribute.Lobby.Locks.{
  Handler, edit_service, login_found, login_task, logout_task, create_role_with, queue_up, ask_room,
  announce_task, room_task, matched_task, match_game_with, match_stop_task, player_data_task,
  online_count_task, handle_task, disconnect_task, subscribe_task,
}

module _ ⦃pb : LobbyCodec⦄ ⦃js : Json⦄ ⦃db : Database⦄ ⦃stub : GameStub⦄ where
  -- The threads rely on the invariant alone, and keep it.
  unfoldable lobby_rely : Rely Lobby
  lobby_rely = record {
    Holds = λ w. LobbyInv w.service;
    Grows = λ w w'. Unit;
    grows_refl = λ w. tt;
    grows_trans = λ a b. tt;
  }

  abbrev IsSafe : {A : Type 0} → Task Lobby A → Type 0
  IsSafe t = (w : Lobby) → LobbyInv w.service → Safe lobby_rely t w

  ret-IsSafe : {A : Type 0} (a : A) → IsSafe {A = A} (ret a)
  unfolding Safe
  ret-IsSafe a w v = tt

  then-IsSafe :
      {A B : Type 0} (t : Task Lobby A) (k : A → Task Lobby B)
      → IsSafe t
      → ((a : A) → IsSafe (k a))
      → IsSafe (t >>= k)
  unfolding lobby_rely
  then-IsSafe t k h rest w v =
      Safe-sequence lobby_rely t k w v (h w v) (λ a w' grown v'. rest a w' v')

  look-IsSafe : {A : Type 0} (f : Lobby → A) → IsSafe (look f)
  unfolding Safe lobby_rely
  look-IsSafe f w v = λ w' grown v'. (v', tt, tt)

  edit-IsSafe :
      (f : Service → Service)
      → ((l : Service) → LobbyInv l → LobbyInv (f l))
      → IsSafe (edit_service f)
  unfolding Safe lobby_rely
  edit-IsSafe f keeps w v = λ w' grown v'. (keeps w'.service v', tt, tt)

  either-IsSafe :
      {A : Type 0} (b : Bool) (t u : Task Lobby A)
      → IsSafe t
      → IsSafe u
      → IsSafe (if b then t else u)
  either-IsSafe true t u x y = x
  either-IsSafe false t u x y = y

  -- A section that changes the service, with a response behind it.
  answered-IsSafe :
      (f : Service → Service) (rsp : Option GatewayResponse)
      → ((l : Service) → LobbyInv l → LobbyInv (f l))
      → IsSafe (edit_service f >> ret rsp)
  answered-IsSafe f rsp keeps = then-IsSafe _ _ (edit-IsSafe f keeps) (λ a. ret-IsSafe rsp)

  login_task-IsSafe : (req : GatewayRequest) (rsp : GatewayResponse) → IsSafe (login_task req rsp)
  unfolding login_task
  login_task-IsSafe req rsp =
      either-IsSafe _ _ _ (then-IsSafe _ _ (look-IsSafe _) (λ d. login_found-IsSafe _))
        (ret-IsSafe (some rsp))
    where
      login_found-IsSafe : (o : Option PlayerData) → IsSafe (login_found req.uid o rsp)
      login_found-IsSafe none = unfold login_found in ret-IsSafe _
      login_found-IsSafe (some d) =
          unfold login_found in answered-IsSafe _ _ (insert_online-LobbyInv req.uid)

  create_role-IsSafe :
      (req : GatewayRequest) (o : Option CreateRoleReq) (rsp : GatewayResponse)
      → IsSafe (create_role_with req o rsp)
  unfolding create_role_with Safe lobby_rely
  create_role-IsSafe req none rsp w v = tt
  create_role-IsSafe req (some role) rsp w v = λ w' grown v'. (v', tt, tt)

  queue_up-IsSafe : (p : MatchPlayer) → IsSafe (queue_up p)
  unfolding queue_up Safe lobby_rely
  queue_up-IsSafe p w v = λ w' grown v'. (
    record { once = v'.once; waiting = length-take_pair p w'.service.match_queue v'.waiting },
    tt,
    tt,
  )

  ask_room-IsSafe : (json : Bytes) → IsSafe (ask_room json)
  unfolding ask_room Safe lobby_rely
  ask_room-IsSafe json w v = λ w' grown v'. (v', tt, tt)

  failure-LobbyInv : (p : MatchPlayer) (l : Service) → LobbyInv l → LobbyInv (push_failure p l)
  unfolding push_failure
  failure-LobbyInv p l = SamePlayers-LobbyInv (push-SamePlayers p.conn_id 1007 _ l)

  room-LobbyInv :
      (p : MatchPlayer) (n : ℕ) (room : CreateRoomRsp) (json : Bytes) (l : Service)
      → LobbyInv l
      → LobbyInv (push_room p n room json l)
  unfolding push_room
  room-LobbyInv p n room json l = SamePlayers-LobbyInv (push-SamePlayers p.conn_id 1007 _ l)

  both-IsSafe :
      (f f' : Service → Service)
      → ((l : Service) → LobbyInv l → LobbyInv (f l))
      → ((l : Service) → LobbyInv l → LobbyInv (f' l))
      → IsSafe (edit_service f >> edit_service f')
  both-IsSafe f f' k k' = then-IsSafe _ _ (edit-IsSafe f k) (λ a. edit-IsSafe f' k')

  announce_task-IsSafe :
      (o : Option CreateRoomRsp) (p1 p2 : MatchPlayer) (json : Bytes)
      → IsSafe (announce_task o p1 p2 json)
  unfolding announce_task
  announce_task-IsSafe none p1 p2 json = both-IsSafe _ _ (failure-LobbyInv p1) (failure-LobbyInv p2)
  announce_task-IsSafe (some room) p1 p2 json =
      either-IsSafe _ _ _
        (both-IsSafe _ _ (room-LobbyInv p1 1 room json) (room-LobbyInv p2 2 room json))
        (both-IsSafe _ _ (failure-LobbyInv p1) (failure-LobbyInv p2))

  room_task-IsSafe :
      (o : Option Bytes) (p1 p2 : MatchPlayer) (rsp : GatewayResponse)
      → IsSafe (room_task o p1 p2 rsp)
  unfolding room_task
  room_task-IsSafe none p1 p2 rsp = ret-IsSafe none
  room_task-IsSafe (some json) p1 p2 rsp =
      then-IsSafe _ _ (ask_room-IsSafe json) (λ room.
        then-IsSafe _ _ (announce_task-IsSafe room p1 p2 json) (λ a. ret-IsSafe (some rsp)))

  matched_task-IsSafe :
      (o : Option (MatchPlayer × MatchPlayer)) (rsp : GatewayResponse) → IsSafe (matched_task o rsp)
  unfolding matched_task
  matched_task-IsSafe none rsp = ret-IsSafe (some rsp)
  matched_task-IsSafe (some (p1, p2)) rsp = room_task-IsSafe _ p1 p2 rsp

  match_game-IsSafe :
      (req : GatewayRequest) (o : Option MatchGameReq) (rsp : GatewayResponse)
      → IsSafe (match_game_with req o rsp)
  unfolding match_game_with
  match_game-IsSafe req none rsp = ret-IsSafe (some rsp)
  match_game-IsSafe req (some game) rsp =
      then-IsSafe _ _ (look-IsSafe _)
        (λ d. then-IsSafe _ _ (queue_up-IsSafe _) (λ pair. matched_task-IsSafe pair _))

  remove-LobbyInv :
      (uid : ℕ) (l : Service)
      → LobbyInv l
      → LobbyInv (record l { match_queue = remove_queued uid l.match_queue })
  remove-LobbyInv uid l v = record {
    once = v.once;
    waiting = omega (arith, length-remove_queued-le uid l.match_queue, v.waiting);
  }

  logout_task-IsSafe : (req : GatewayRequest) (rsp : GatewayResponse) → IsSafe (logout_task req rsp)
  unfolding logout_task
  logout_task-IsSafe req rsp = answered-IsSafe _ _ (erase_online-LobbyInv req.uid)

  match_stop_task-IsSafe :
      (req : GatewayRequest) (rsp : GatewayResponse) → IsSafe (match_stop_task req rsp)
  unfolding match_stop_task
  match_stop_task-IsSafe req rsp = answered-IsSafe _ _ (remove-LobbyInv req.uid)

  player_data_task-IsSafe :
      (req : GatewayRequest) (rsp : GatewayResponse) → IsSafe (player_data_task req rsp)
  unfolding player_data_task
  player_data_task-IsSafe req rsp = then-IsSafe _ _ (look-IsSafe _) (λ d. ret-IsSafe _)

  online_count_task-IsSafe : (rsp : GatewayResponse) → IsSafe (online_count_task rsp)
  unfolding online_count_task
  online_count_task-IsSafe rsp = then-IsSafe _ _ (look-IsSafe _) (λ d. ret-IsSafe _)

  handle_task-IsSafe : (req : GatewayRequest) → IsSafe (handle_task req)
  unfolding handle_task
  handle_task-IsSafe req =
      let rsp = empty_response req in
      either-IsSafe (req.cmd_id == 1001) (login_task req rsp) _ (login_task-IsSafe req rsp) (
        either-IsSafe (req.cmd_id == 1002) (logout_task req rsp) _ (logout_task-IsSafe req rsp) (
          either-IsSafe (req.cmd_id == 1003) (create_role_with req _ rsp) _
            (create_role-IsSafe req (pb.parse_create_role_req req.payload) rsp)
            (either-IsSafe (req.cmd_id == 1005) (match_game_with req _ rsp) _
              (match_game-IsSafe req (pb.parse_match_game_req req.payload) rsp)
              (either-IsSafe (req.cmd_id == 1006) (match_stop_task req rsp) _
                (match_stop_task-IsSafe req rsp)
                (either-IsSafe (req.cmd_id == 1008) (player_data_task req rsp) _
                  (player_data_task-IsSafe req rsp)
                  (either-IsSafe (req.cmd_id == 1009) (online_count_task rsp) _
                    (online_count_task-IsSafe rsp) (ret-IsSafe (some rsp))))))))

  begin-LobbyInv : (writer : ℕ) (l : Service) → LobbyInv l → LobbyInv (subscribe_begin writer l)
  unfolding subscribe_begin
  begin-LobbyInv writer l v = record { once = v.once; waiting = v.waiting }

  end-LobbyInv : (l : Service) → LobbyInv l → LobbyInv (subscribe_end l)
  unfolding subscribe_end
  end-LobbyInv l v = record { once = v.once; waiting = v.waiting }

  -- The threads that may start at any time, each any number of times.
  pub data LobbyThread (t : Handler) : Type 0 where
    requests : (req : GatewayRequest) → t ≡ handle_task req → LobbyThread t
    disconnects : (req : GatewayRequest) → t ≡ disconnect_task req → LobbyThread t
    subscribes : (writer : ℕ) → t ≡ subscribe_task writer → LobbyThread t

  LobbyThread-Safe :
      (t : Handler) (w : Lobby) → LobbyThread t → LobbyInv w.service → Safe lobby_rely t w
  unfolding disconnect_task subscribe_task
  LobbyThread-Safe t w (requests req e) v = rw e (handle_task-IsSafe req w v)
  LobbyThread-Safe t w (disconnects req e) v =
      rw e (answered-IsSafe (client_disconnect req) none (client_disconnect-LobbyInv req) w v)
  LobbyThread-Safe t w (subscribes writer e) v = rw e (
      then-IsSafe (edit_service (subscribe_begin writer) >> edit_service subscribe_end)
        (λ a. ret none)
        (both-IsSafe (subscribe_begin writer) subscribe_end (begin-LobbyInv writer) end-LobbyInv)
        (λ a. ret-IsSafe none) w v)

  -- From the lobby's start, whatever requests, disconnects and subscriptions are started, and
  -- however their critical sections interleave, whatever the database and the game server answer:
  -- every online player is counted once and at most one player waits in the match queue.
  pub lobby_threads_keep :
      {w : Lobby} {p : Pool Lobby (Option GatewayResponse)}
      → w.service ≡ init_service
      → PoolReach LobbyThread w p
      → LobbyInv p.state.service
  unfolding lobby_rely
  lobby_threads_keep {w} e r =
      (PoolReach-Safe lobby_rely LobbyThread LobbyThread-Safe (rw e init_service-LobbyInv) r).0
