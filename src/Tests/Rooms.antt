-- ===== src/Tests/Rooms.antt =====
-- Rooms on concrete players, inputs and streams.
use ki_han_server_distribute.Base.{
  length, ◌↔◌, ◌≤◌, ℕ, ℤ, pos, true, false, some, List, [], ◌∷◌, ◌++◌, ◌≡◌, ◌⊎◌, nat_eq, int_eq,
  refl, arith, map, elem,
}
use ki_han_server_distribute.Base.Map.{find, all_values, update}
use ki_han_server_distribute.Base.Bytes.{Bytes, be_uint32, codes, to_string, to_string_int}
use ki_han_server_distribute.Sessions.{Session, Sessions, response, send, send_to_players}
use ki_han_server_distribute.Sessions.Deliveries.{received, Alone}
use ki_han_server_distribute.Room.{
  Room, Player, gaming, new_room, new_player, newcomer, push_input, start_game, tick,
  check_all_ready, build_snapshot_json, mark_ready,
}
use ki_han_server_distribute.Room.Invariant.{IsValid, new_room-IsValid, add_player_keeps}
use ki_han_server_distribute.Room.Methods.{mark_ready-IsValid}
use ki_han_server_distribute.Room.Frames.{
  Event, input, ticks, run, frames, count_ticks, consecutive,
}
use ki_han_server_distribute.Room.Input.{encode_input, push_input_stores, push_input_change, Entry}
use ki_han_server_distribute.Room.Ready.{check_all_ready_iff}
use ki_han_server_distribute.Room.Snapshot.{
  snapshot_text, seated_players, build_snapshot_json_total,
}
use ki_han_server_distribute.Room.Duel.{duel, solo, add_player-new_room, add_player-solo}
use ki_han_server_distribute.Gateway.{Gateway, insert_session, assign, new_session, new_gateway}
use ki_han_server_distribute.Traffic.Relay.{
  IsOpen, relay, read_by, game_sent, start_message, frame_message, game_relayed,
}
use ki_han_server_distribute.Tests.{byte_codec}

abbrev pub anna : ℕ × Bytes × ℤ
anna = (7, codes "A", pos 1)

abbrev pub bert : ℕ × Bytes × ℤ
bert = (9, codes "B", pos 2)

abbrev pub one_room : Room
one_room = solo (pos 1000) anna

abbrev pub two_room : Room
two_room = duel (pos 1000) anna bert

pub one_room-IsValid : IsValid one_room
one_room-IsValid =
    (add_player_keeps (new_room (pos 1000)) one_room 7 (codes "A") (pos 1)
      (new_room-IsValid (pos 1000)) (add_player-new_room (pos 1000) 7 (codes "A") (pos 1))).1

pub two_room-IsValid : IsValid two_room
two_room-IsValid =
    (add_player_keeps one_room two_room 9 (codes "B") (pos 2) one_room-IsValid
      (add_player-solo (pos 1000) 7 9 (codes "A") (codes "B") (pos 1) (pos 2) (omega arith))).1

-- Anna's stream is 3, Bert's is 4.
abbrev table : Sessions
table = record {
  sessions =
      (7, record { stream = 3; conn_id = 70 }) ∷ (9, record { stream = 4; conn_id = 90 }) ∷ [];
  sent = [];
}

table-Alone : Alone table.sessions 7 3
unfolding find
table-Alone v s e ne = ground arith

abbrev events : List Event
events = input 7 (encode_input 0 1 2) ∷ ticks ∷ input 9 (encode_input 0 3 4) ∷ ticks ∷ []

-- Two ticks: the frames carry the first input of each player, and two players.
received-run_test :
    received 3 (run events (start_game two_room table).0 (start_game two_room table).1).1.sent
    ≡ record { conn_id = 70; cmd_id = 2003; payload = 1000 ∷ []; kick_client = false }
      ∷ record { conn_id = 70; cmd_id = 2005; payload = 0 ∷ 2 ∷ []; kick_client = false }
      ∷ record { conn_id = 70; cmd_id = 2005; payload = 1 ∷ 2 ∷ []; kick_client = false }
      ∷ []
unfolding duel new_room elem find run start_game received response tick push_input encode_input
    be_uint32 send_to_players send
received-run_test = refl

abbrev playing_room : Room
playing_room = record two_room {
  state = gaming;
  current_frame = record { frame_id = 5; player_count = 2; raw_inputs = [] };
}

push_input_stores_example :
    find (pos 1) (push_input playing_room 7 (encode_input 6 1 2)).current_frame.raw_inputs
    ≡ some (1 ∷ 2 ∷ [])
unfolding duel find newcomer new_player
push_input_stores_example =
    push_input_stores playing_room 7 6 1 2 (newcomer 7 (codes "A") (pos 1) (pos 1)) refl refl
      (omega arith) (omega arith) refl

push_input_change_example :
    (find (pos 1) (push_input playing_room 7 (encode_input 6 1 2)).current_frame.raw_inputs
      ≡ find (pos 1) playing_room.current_frame.raw_inputs)
    ⊎ ((p : Player) × (find 7 playing_room.players ≡ some p)
        × Entry playing_room p (encode_input 6 1 2) (pos 1) (
            find (pos 1) (push_input playing_room 7 (encode_input 6 1 2)).current_frame.raw_inputs))
push_input_change_example = push_input_change playing_room 7 (encode_input 6 1 2) (pos 1)

check_all_ready_iff_example : (check_all_ready (mark_ready two_room 7) ≡ true) ↔ (
    (2 ≤ length (mark_ready two_room 7).player_uids)
    × ((u : ℕ) (p : Player) → find u (mark_ready two_room 7).players ≡ some p → p.ready ≡ true))
check_all_ready_iff_example =
    check_all_ready_iff (mark_ready two_room 7) (mark_ready-IsValid two_room 7 two_room-IsValid)

check_all_ready_test : check_all_ready (mark_ready two_room 7) ≡ false
unfolding check_all_ready mark_ready duel new_room newcomer new_player all_values update
check_all_ready_test = refl

abbrev pub ready_room : Room
ready_room = mark_ready (mark_ready two_room 7) 9

pub ready_room-IsValid : IsValid ready_room
ready_room-IsValid =
    mark_ready-IsValid (mark_ready two_room 7) 9 (mark_ready-IsValid two_room 7 two_room-IsValid)

pub check_all_ready_both_test : check_all_ready ready_room ≡ true
unfolding check_all_ready mark_ready duel new_room newcomer new_player all_values update
check_all_ready_both_test = refl

build_snapshot_json_total_example :
    build_snapshot_json two_room
    ≡ some (snapshot_text (seated_players two_room.players two_room.player_uids))
build_snapshot_json_total_example = build_snapshot_json_total two_room two_room-IsValid

build_snapshot_json_test :
    build_snapshot_json two_room
    ≡ some (
        codes
          "[{\"uid\":7,\"nickname\":\"A\",\"character_id\":1},{\"uid\":9,\"nickname\":\"B\",\"character_id\":2}]")
unfolding build_snapshot_json duel new_room newcomer new_player to_string to_string_int find
build_snapshot_json_test = refl

abbrev anna_seated : Player
anna_seated = newcomer 7 (codes "A") (pos 1) (pos 1)

abbrev bert_seated : Player
bert_seated = newcomer 9 (codes "B") (pos 2) (pos 2)

-- Anna's session on the gateway.
abbrev gate : Gateway
gate = (insert_session 70 9 (codes "t") 7 new_gateway).0

gate-IsOpen : IsOpen 0 gate
unfolding insert_session assign new_session new_gateway
gate-IsOpen = record { on = refl; id32 = omega arith; key32 = omega arith }

game_relayed_example :
    let s : Session = record { stream = 3; conn_id = 70 } in
    let (r', n') = start_game two_room table in
    let sent = game_sent s two_room (frames events r') in
    (received 3 (run events r' n').1.sent ≡ received 3 [] ++ sent)
    × (map (λ f. f.frame_id) (frames events r') ≡ consecutive (count_ticks events) 0)
    × ((g' : Gateway) × (relay 0 sent gate ≡ some g')
        × (g'.objects ≡ gate.objects)
        × (read_by 0 gate g'.effects
            ≡ read_by 0 gate gate.effects
              ++ start_message two_room ∷ map frame_message (frames events r')))
unfolding duel new_room elem find frames
game_relayed_example =
    game_relayed 7 (record { stream = 3; conn_id = 70 }) two_room table events 0 gate
      (refl, (refl, tt)) refl refl table-Alone gate-IsOpen (omega arith)
      (omega arith, (omega arith, tt))
