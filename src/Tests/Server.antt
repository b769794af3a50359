-- ===== src/Tests/Server.antt =====
-- The game server on concrete rooms, streams and calls.
use ki_han_server_distribute.Base.{
  ◌≢◌, ap, ℕ, ◌≤◌, length, some, true, ℤ, pos, negsuc, none, some, [], ◌∷◌, ◌++◌, ◌≡◌, inl, refl,
  arith, nat_eq, int_eq, ◌==◌, if◌then◌else◌, elem,
}
use ki_han_server_distribute.Base.Map.{find, set}
use ki_han_server_distribute.Base.Bytes.{codes}
use ki_han_server_distribute.Proto.{GatewayRequest, CreateRoomReq}
use ki_han_server_distribute.Sessions.{Session, Sessions}
use ki_han_server_distribute.Sessions.Deliveries.{deliveries}
use ki_han_server_distribute.Room.{Room, Player, gaming, new_room, mark_ready}
use ki_han_server_distribute.Room.Duel.{duel}
use ki_han_server_distribute.Manager.{
  Manager, empty_manager, assign, get_or_create_room, get_room, get_room_by_uid, destroy_room,
  process_room,
}
use ki_han_server_distribute.Manager.Invariant.{
  Inv, empty_manager-Inv, get_or_create_room-Inv, assign-Inv, SameRooms-Inv,
}
use ki_han_server_distribute.Service.{finish_room, close_stream, stream_battle}
use ki_han_server_distribute.Service.Finish.{
  finish_room_found, close_stream_forfeit, game_over_payload,
}
use ki_han_server_distribute.Service.Safety.{stream_battle_total}
use ki_han_server_distribute.Service.Reconnect.{destroy_room_strays}
use ki_han_server_distribute.Control.{Game, create_room, read_player}
use ki_han_server_distribute.Control.Rooms.{GameInv, initial}
use ki_han_server_distribute.Control.Outcome.{create_room_two, create_room_leaks}
use ki_han_server_distribute.World.{Reach, here, next, creates, Reach-GameInv}
use ki_han_server_distribute.Tests.{magnitude, byte_codec, tree_json, item, cons, nil}
use ki_han_server_distribute.Manager.{run_loop_round, rooms_to_process}
use ki_han_server_distribute.Manager.Round.{run_loop_round_once}
use ki_han_server_distribute.Manager.Start.{process_room_starts}
use ki_han_server_distribute.Room.Ready.{check_all_ready_iff}
use ki_han_server_distribute.Tests.Rooms.{
  ready_room, ready_room-IsValid, check_all_ready_both_test, anna, bert, two_room, two_room-IsValid,
}

abbrev start : Game
start = record { manager = empty_manager; next_room_id = 1000 }

abbrev pair_req : CreateRoomReq
pair_req = record { player_list_json = 7 ∷ b'A' ∷ 1 ∷ 9 ∷ b'B' ∷ 2 ∷ [] }

create_room_two_example :
    ((create_room start pair_req).1 ≡ record { err_code = pos 0; room_id = pos 1000 })
    × (get_room (create_room start pair_req).0.manager (pos 1000) ≡ some 0)
    × ((create_room start pair_req).0.manager.objects 0 ≡ duel (pos 1000) anna bert)
unfolding empty_manager find read_player
create_room_two_example =
    create_room_two start pair_req
      (cons (item 7 (codes "A") (pos 1)) (cons (item 9 (codes "B") (pos 2)) nil))
      (item 7 (codes "A") (pos 1)) (item 9 (codes "B") (pos 2)) anna bert refl refl refl refl refl
      (omega arith)

create_room_leaks_example :
    ((create_room start (record { player_list_json = [] })).1
      ≡ record { err_code = negsuc 0; room_id = pos 0 })
    × (get_room (create_room start (record { player_list_json = [] })).0.manager (pos 1000)
        ≡ some 0)
    × ((create_room start (record { player_list_json = [] })).0.manager.objects 0
        ≡ new_room (pos 1000))
unfolding empty_manager find
create_room_leaks_example = create_room_leaks start (record { player_list_json = [] }) refl refl

-- The lobby has made a room.
abbrev after_create : Reach initial (create_room initial pair_req).0
after_create = next here (creates pair_req)

Reach-GameInv_example : GameInv (create_room initial pair_req).0
Reach-GameInv_example = Reach-GameInv after_create

abbrev annas_stream : Session
annas_stream = record { stream = 3; conn_id = 70 }

abbrev enter_req : GatewayRequest
enter_req = record { conn_id = 70; uid = 7; cmd_id = 2001; payload = 0 ∷ [] }

-- The room of Anna and Bert in play, with their streams 3 and 4.
abbrev made : Manager
made = (get_or_create_room (pos 1000) empty_manager).0

abbrev duel_room : Room
duel_room = record two_room { state = gaming }

abbrev table : Sessions
table = record {
  sessions = (7, annas_stream) ∷ (9, record { stream = 4; conn_id = 90 }) ∷ [];
  sent = [];
}

abbrev playing : Manager
playing = record (assign 0 duel_room made) {
  uid_to_room = (7, pos 1000) ∷ (9, pos 1000) ∷ [];
  net = table;
}

playing-Inv : Inv playing
unfolding get_or_create_room empty_manager new_room duel find
playing-Inv =
    SameRooms-Inv {m = assign 0 duel_room made}
      (record { rooms = refl; objects = refl; allocated = refl })
      (assign-Inv 0 duel_room made refl two_room-IsValid
        (get_or_create_room-Inv (pos 1000) empty_manager empty_manager-Inv))

finish_room_found_example :
    ((finish_room 0 7 playing).net.sent
      ≡ [] ++ deliveries table.sessions (7 ∷ 9 ∷ []) 2007 (game_over_payload (pos 1000) 7))
    × ((j : ℤ)
        → get_room (finish_room 0 7 playing) j
          ≡ (if pos 1000 == j then none else get_room playing j))
    × ((u : ℕ)
        → find u (finish_room 0 7 playing).uid_to_room
          ≡ (if elem u (7 ∷ 9 ∷ []) then none else find u playing.uid_to_room))
    × (process_room 0 (finish_room 0 7 playing) ≡ finish_room 0 7 playing)
unfolding assign get_or_create_room empty_manager set find duel
finish_room_found_example = finish_room_found (pos 1000) 0 7 playing playing-Inv refl

close_stream_forfeit_example :
    ((close_stream 7 playing).net.sent
      ≡ [] ++ deliveries table.sessions (7 ∷ 9 ∷ []) 2007 (game_over_payload (pos 1000) 9))
    × (get_room (close_stream 7 playing) (pos 1000) ≡ none)
    × (find 7 (close_stream 7 playing).net.sessions ≡ none)
unfolding assign get_or_create_room empty_manager set find duel
close_stream_forfeit_example =
    close_stream_forfeit (pos 1000) 0 7 9 7 playing playing-Inv refl refl refl refl (omega arith)
      (inl refl)

stream_battle_total_example :
    (m' : Manager) × (stream_battle 3 (enter_req ∷ []) playing ≡ some m')
    × Inv m'
    × (find 7 m'.net.sessions ≡ none)
    × (find 7 m'.uid_to_room ≡ none)
stream_battle_total_example = stream_battle_total 3 enter_req [] playing playing-Inv

run_loop_round_once_example :
    (run_loop_round playing).objects 0 ≡ (process_room 0 playing).objects 0
unfolding get_or_create_room empty_manager set find rooms_to_process elem
run_loop_round_once_example = run_loop_round_once playing 0 playing-Inv

-- Both players have got ready.
abbrev ready : Manager
ready = record (assign 0 ready_room made) { net = table }

all_ready :
    (2 ≤ length ready_room.player_uids)
    × ((u : ℕ) (q : Player) → find u ready_room.players ≡ some q → q.ready ≡ true)
all_ready = (check_all_ready_iff ready_room ready_room-IsValid).0 check_all_ready_both_test

ready-Inv : Inv ready
unfolding get_or_create_room empty_manager new_room duel find mark_ready
ready-Inv =
    SameRooms-Inv {m = assign 0 ready_room made}
      (record { rooms = refl; objects = refl; allocated = refl })
      (assign-Inv 0 ready_room made refl ready_room-IsValid
        (get_or_create_room-Inv (pos 1000) empty_manager empty_manager-Inv))

process_room_starts_example :
    (((process_room 0 ready).objects 0).state ≡ gaming)
    × (((process_room 0 ready).objects 0).current_frame.frame_id ≡ 0)
    × (((process_room 0 ready).objects 0).current_frame.raw_inputs ≡ [])
    × ((process_room 0 ready).net.sent
        ≡ [] ++ deliveries table.sessions (7 ∷ 9 ∷ []) 2003 (1000 ∷ []))
unfolding assign mark_ready duel new_room
process_room_starts_example = process_room_starts 0 ready ready-Inv refl all_ready.0 all_ready.1

-- Anna has gone on from room 1000 to room 1001.
abbrev moved : Manager
moved = record playing {
  rooms = (pos 1000, 0) ∷ (pos 1001, 1) ∷ [];
  uid_to_room = (7, pos 1001) ∷ (9, pos 1000) ∷ [];
}

distinct_ids : pos 1000 ≢ pos 1001
distinct_ids e = let same : 1000 ≡ 1001 = ap magnitude e in omega (arith, same)

destroy_room_strays_example :
    (get_room_by_uid moved 7 ≡ some 1)
    × (get_room_by_uid (destroy_room (pos 1000) moved) 7 ≡ none)
    × (get_room (destroy_room (pos 1000) moved) (pos 1001) ≡ some 1)
unfolding find elem assign duel
destroy_room_strays_example =
    destroy_room_strays (pos 1000) (pos 1001) 0 1 7 moved refl refl distinct_ids refl refl
