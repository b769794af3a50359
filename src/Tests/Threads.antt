-- ===== src/Tests/Threads.antt =====
-- The game server's threads on concrete schedules.
use ki_han_server_distribute.Base.{
  ◌≤◌, ℕ, pos, true, false, none, some, List, [], ◌∷◌, ◌++◌, ◌≡◌, ◌≢◌, refl, All, nat_eq, int_eq,
  map,
}
use ki_han_server_distribute.Base.Map.{find, set, erase}
use ki_han_server_distribute.Proto.{GameOverReq, GatewayRequest, CreateRoomReq}
use ki_han_server_distribute.Sessions.{
  Session, send_to_players, Write, register_session, response, send, unregister_session,
}
use ki_han_server_distribute.Room.{
  stop_game, add_player, has_player, build_snapshot_json, get_player, assign_game_id, join,
  new_player, new_room, newcomer,
}
use ki_han_server_distribute.Manager.Invariant.{Inv}
use ki_han_server_distribute.Manager.{
  Manager, apply_method, remove_room, empty_manager, get_or_create_room, get_room, map_uid_to_room,
  assign, found_or_made, get_room_by_uid, make_shared, room_of, unmap_uid,
}
use ki_han_server_distribute.Control.{Game, create_room, initial_next_room_id, read_player}
use ki_han_server_distribute.Control.Rooms.{initial}
use ki_han_server_distribute.Threads.{Task, ret, fault, ◌>>=◌, ◌>>◌}
use ki_han_server_distribute.Threads.Pool.{begin, next, starts}
use ki_han_server_distribute.Threads.Schedule.{Run, run, turn_of}
use ki_han_server_distribute.Locks.Server.{Thread, GameThread, streams, calls, threads_never_fail}
use ki_han_server_distribute.Locks.Races.{over_task_twice, endings}
use ki_han_server_distribute.Threads.Moves.{Moves}
use ki_han_server_distribute.Locks.Rooms.{
  create_task, add_all, add_each, add_player_task, added, fetch_add, get_or_create_task, store_back,
}
use ki_han_server_distribute.Locks.{over_task, stream_task, close_task, request_task, requests_task}
use ki_han_server_distribute.Service.{reply, open_stream, session_of}
use ki_han_server_distribute.Lobby.Matching.{game_server}
use ki_han_server_distribute.Manager.Running.{Turn, turn}
use ki_han_server_distribute.Manager.Process.{
  unstarted, working, ended, joining, returned, loop_at, loop_step, joined_by, main_at, main_step,
  Runs, still, loop_moves, main_moves,
}
use ki_han_server_distribute.Manager.Process.Ending.{process_at, stop_ends, stop_lost}
use ki_han_server_distribute.Tests.{byte_codec, byte_lobby_codec, same_name, tree_json}

abbrev pair_call : CreateRoomReq
pair_call = record { player_list_json = 7 ∷ b'A' ∷ 1 ∷ 9 ∷ b'B' ∷ 2 ∷ [] }

abbrev pub request : ℕ → ℕ → ℕ → List ℕ → GatewayRequest
request c u k p = record { conn_id = c; uid = u; cmd_id = k; payload = p }

-- Each player enters, and says that the game is over.
abbrev anna_reqs : List GatewayRequest
anna_reqs = request 70 7 2001 (0 ∷ []) ∷ request 70 7 2006 (0 ∷ 7 ∷ []) ∷ []

abbrev bert_reqs : List GatewayRequest
bert_reqs = request 90 9 2001 (0 ∷ []) ∷ request 90 9 2006 (0 ∷ 9 ∷ []) ∷ []

-- The call of CreateRoom at 2, the streams of the players at 1 and 0.
abbrev three_threads : Run GameThread initial
three_threads = record {
  last = _;
  reach =
      next
        (next (next begin (starts _ (calls pair_call refl))) (starts _ (streams 3 anna_reqs refl)))
        (starts _ (streams 4 bert_reqs refl));
}

abbrev command : Write → ℕ × ℕ
command w = (w.stream, w.response.cmd_id)

abbrev six : ℕ → List ℕ → List ℕ
six n rest = n ∷ n ∷ n ∷ n ∷ n ∷ n ∷ rest

-- The room is made, both enter, and Bert's request is handled while Anna's has found its room.
abbrev both_end : Run GameThread initial
both_end = run (six 2 (six 1 (1 ∷ six 0 (0 ∷ 1 ∷ (six 0 (0 ∷ 0 ∷ six 1 (1 ∷ []))))))) three_threads

abbrev sent_by : Run GameThread initial → List (ℕ × ℕ)
sent_by r = map command r.last.state.manager.net.sent

-- Bert's end is handled while Anna's has found the room: the game ends twice for both.
two_ends_test :
    sent_by both_end
    ≡ (3, 2001) ∷ (4, 2001) ∷ (3, 2007) ∷ (4, 2007) ∷ (3, 2007) ∷ (4, 2007) ∷ (3, 2006) ∷ []
unfolding run ◌>>=◌ create_task initial initial_next_room_id read_player add_player find
    get_or_create_room empty_manager set stream_task get_room has_player build_snapshot_json
    get_player reply map_uid_to_room erase add_all add_each add_player_task added fetch_add
    get_or_create_task store_back close_task request_task requests_task assign found_or_made
    get_room_by_uid make_shared room_of unmap_uid assign_game_id join new_player new_room newcomer
    open_stream session_of register_session response send unregister_session turn_of apply_method
    stop_game remove_room send_to_players
two_ends_test = refl

threads_never_fail_example :
    Inv both_end.last.state.manager × All (λ t. t ≢ fault) both_end.last.tasks
threads_never_fail_example = threads_never_fail both_end.reach

abbrev annas_thread : Thread
annas_thread = stream_task 3 anna_reqs >> ret none

abbrev berts_thread : Thread
berts_thread = stream_task 4 bert_reqs >> ret none

abbrev call_thread : Thread
call_thread = create_task pair_call >>= λ rsp. ret (some rsp)

-- The room of the two players, made by CreateRoom.
abbrev with_room : Game
with_room = (create_room initial pair_call).0

abbrev annas_session : Session
annas_session = record { stream = 3; conn_id = 70 }

abbrev berts_session : Session
berts_session = record { stream = 4; conn_id = 90 }

-- Both have entered.
abbrev entered_room : Game
entered_room =
    let room_id = pos initial.next_room_id in
    record with_room {
      manager = map_uid_to_room 9 room_id (map_uid_to_room 7 room_id with_room.manager);
    }

-- The last round of the loop goes on while Stop is called.
abbrev goes_on : Turn
goes_on = record { others = λ m. m; stops = false }

abbrev last_rooms : Manager
last_rooms = turn goes_on empty_manager

to_the_end :
    Runs
      (process_at empty_manager false working joining)
      3
      (process_at last_rooms false ended returned)
unfolding loop_step loop_at main_step main_at joined_by
to_the_end = main_moves (loop_moves goes_on (loop_moves goes_on still refl) refl) refl

stop_ends_example :
    let s' = process_at last_rooms false ended returned in
    (3 ≤ 3) × (loop_step goes_on s' ≡ none → main_step s' ≡ none → s'.main ≡ returned)
unfolding main_step main_at
stop_ends_example =
    stop_ends empty_manager true working (process_at empty_manager false working joining)
      (process_at last_rooms false ended returned) 3 goes_on (λ e. cc) refl to_the_end

-- Stop comes first, and the loop's thread sets the flag behind it.
lost_run :
    Runs
      (process_at empty_manager false unstarted joining)
      2
      (process_at empty_manager true working joining)
unfolding loop_step loop_at
lost_run = loop_moves goes_on (loop_moves goes_on still refl) refl

stop_lost_example :
    let s' = process_at empty_manager true working joining in
    (s'.main ≡ joining) × (loop_step goes_on s' ≢ none)
unfolding main_step main_at
stop_lost_example =
    stop_lost empty_manager false (process_at empty_manager false unstarted joining)
      (process_at empty_manager true working joining) 2 goes_on refl lost_run

abbrev annas_over : GameOverReq
annas_over = record { room_id = pos 1000; winner_uid = 7; p1_hp = pos 1; p2_hp = pos 0 }

abbrev berts_over : GameOverReq
berts_over = record { room_id = pos 1000; winner_uid = 9; p1_hp = pos 0; p2_hp = pos 1 }

-- Behind its request each thread returns.
abbrev done : Unit {0} → Task Game (Unit {0})
done u = ret u

over_task_twice_example :
    (g' : Game) × Moves entered_room
      ((over_task annas_session 7 (some annas_over) >>= done)
        ∷ (over_task berts_session 9 (some berts_over) >>= done)
        ∷ [])
      g'
      (ret tt ∷ ret tt ∷ [])
    × (g'.manager.net.sent
        ≡ (entered_room.manager.net.sent
            ++ (endings entered_room.manager 0 7 ++ response annas_session 2006 (0 ∷ []) ∷ []))
          ++ (endings entered_room.manager 0 9 ++ response berts_session 2006 (0 ∷ []) ∷ []))
unfolding create_room find assign get_or_create_room initial empty_manager get_room_by_uid
    map_uid_to_room initial_next_room_id read_player add_player set
over_task_twice_example =
    over_task_twice done done [] annas_session berts_session 7 9 0 annas_over berts_over
      entered_room refl refl
