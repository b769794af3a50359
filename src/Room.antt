-- ===== src/Room.antt =====
-- game_server/src/room.h, room.cpp and player.h. Each method is one critical section of the room's
-- mutex and becomes a function from the room to the room after it. `RoomManager::SendToPlayers`,
-- which Broadcast calls, works on the session table, so the methods that broadcast take it along.
pub mod Invariant
pub mod Methods
pub mod Seats
pub mod Frames
pub mod Input
pub mod Ready
pub mod Snapshot
pub mod Duel
use ki_han_server_distribute.Base.{
  ℕ, ◌+◌, ◌%◌, ◌^◌, ℤ, pos, Bool, true, false, Option, none, some, List, [], ◌∷◌, ◌++◌, ltb, leb,
  if◌then◌else◌, ◌==◌, nat_eq, int_eq, length, take, drop, erase_first,
}
use ki_han_server_distribute.Base.Map.{
  Map, find, contains, set, erase, update, map_values, all_values,
}
use ki_han_server_distribute.Base.Bytes.{Bytes, codes, be_uint32, to_string, to_string_int}
use ki_han_server_distribute.Proto.{Codec, RoomFrame}
use ki_han_server_distribute.Sessions.{Sessions, send_to_players}

pub record Player : Type 0 where
  pub uid : ℕ
  pub nickname : Bytes
  pub character_id : ℤ
  pub game_id : ℤ
  pub ready : Bool
  pub offline : Bool

pub data RoomState : Type 0 where
  idle gaming : RoomState

pub record Room : Type 0 where
  pub id : ℤ
  pub state : RoomState
  pub player_uids : List ℕ
  pub players : Map ℕ Player
  pub current_frame : RoomFrame

abbrev pub is_gaming : RoomState → Bool
is_gaming idle = false
is_gaming gaming = true

unfoldable pub new_player : ℕ → Bytes → ℤ → Player
new_player u n c = record {
  uid = u;
  nickname = n;
  character_id = c;
  game_id = pos 0;
  ready = false;
  offline = false;
}

unfoldable pub new_room : ℤ → Room
new_room id = record {
  id = id;
  state = idle;
  player_uids = [];
  players = [];
  current_frame = record { frame_id = 0; player_count = 0; raw_inputs = [] };
}

unfoldable pub has_player : Room → ℕ → Bool
has_player r uid = contains uid r.players

unfoldable pub is_full : Room → Bool
is_full r = leb 2 (length r.player_uids)

-- `GetPlayerUids`: a copy of the vector.
abbrev pub get_player_uids : Room → List ℕ
get_player_uids r = r.player_uids

unfoldable pub get_player : Room → ℕ → Option Player
get_player r uid = find uid r.players

game_id_beside : Option Player → Option ℤ
game_id_beside none = none
game_id_beside (some first) = some (if first.game_id == pos 1 then pos 2 else pos 1)

pub assign_beside : List ℕ → Map ℕ Player → Option ℤ
unfolding game_id_beside
assign_beside [] players = some (pos 1)
assign_beside (first ∷ rest) players = game_id_beside (find first players)

-- `none` is the std::out_of_range of `players_.at`.
unfoldable pub assign_game_id : Room → Option ℤ
unfolding assign_beside
assign_game_id r = assign_beside r.player_uids r.players

-- `Player new_player(uid, nickname, char_id); new_player.game_id = …`
unfoldable pub newcomer : ℕ → Bytes → ℤ → ℤ → Player
unfolding new_player
newcomer uid nickname char_id game_id = record (new_player uid nickname char_id) {
  game_id = game_id;
}

unfoldable pub join : Room → ℕ → Bytes → ℤ → ℤ → Room
unfolding newcomer
join r uid nickname char_id game_id = record r {
  player_uids = r.player_uids ++ uid ∷ [];
  players = set uid (newcomer uid nickname char_id game_id) r.players;
}

join_as : Room → ℕ → Bytes → ℤ → Option ℤ → Option Room
unfolding join
join_as r uid nickname char_id none = none
join_as r uid nickname char_id (some game_id) = some (join r uid nickname char_id game_id)

-- `none`: AssignGameId threw, before the room was changed.
unfoldable pub add_player : Room → ℕ → Bytes → ℤ → Option Room
unfolding assign_game_id join_as
add_player r uid nickname char_id =
    if contains uid r.players then some r else join_as r uid nickname char_id (assign_game_id r)

unfoldable pub remove_player : Room → ℕ → Room
remove_player r uid = record r {
  players = erase uid r.players;
  player_uids = erase_first uid r.player_uids;
}

unfoldable pub set_ready : Player → Player
set_ready p = record p { ready = true }

-- `room->GetPlayer(uid)->ready = true`, for a uid that the room has.
unfoldable pub mark_ready : Room → ℕ → Room
unfolding set_ready
mark_ready r uid = record r { players = update uid set_ready r.players }

-- The first four bytes of an input, which has at least four.
unfoldable pub input_frame_id : Bytes → ℕ
input_frame_id (b0 ∷ b1 ∷ b2 ∷ b3 ∷ rest) = be_uint32 b0 b1 b2 b3
input_frame_id _ = 0

-- `raw_input.substr(4, 2)`, or two zero bytes where the input is shorter than six.
unfoldable pub action_of : Bytes → Bytes
action_of raw_input = if leb 6 (length raw_input) then take 2 (drop 4 raw_input) else 0 ∷ 0 ∷ []

-- Keeps the first input of a player in a frame.
pub store_input : ℤ → Bytes → RoomFrame → RoomFrame
unfolding action_of
store_input game_id raw_input f =
    if contains game_id f.raw_inputs
    then f
    else record f { raw_inputs = set game_id (action_of raw_input) f.raw_inputs }

pub push_input_of : Room → Option Player → Bytes → Room
unfolding input_frame_id store_input
push_input_of r none raw_input = r
push_input_of r (some p) raw_input =
    if ltb (length raw_input) 4
    then r
    else if ltb (input_frame_id raw_input) r.current_frame.frame_id
    then r
    else record r { current_frame = store_input p.game_id raw_input r.current_frame }

unfoldable pub push_input : Room → ℕ → Bytes → Room
unfolding push_input_of
push_input r uid raw_input =
    if is_gaming r.state then push_input_of r (find uid r.players) raw_input else r

unfoldable pub broadcast : Room → ℕ → Bytes → Sessions → Sessions
broadcast r cmd_id payload = send_to_players r.player_uids cmd_id payload

-- The frame as it is broadcast, with the number of players filled in.
unfoldable pub counted_frame : Room → RoomFrame
counted_frame r = record r.current_frame { player_count = length r.player_uids % 2 ^ 32 }

unfoldable pub next_frame : RoomFrame → RoomFrame
next_frame f = record f { frame_id = (f.frame_id + 1) % 2 ^ 32; raw_inputs = [] }

unfoldable pub check_all_ready : Room → Bool
check_all_ready r =
    if ltb (length r.player_uids) 2 then false else all_values (λ p. p.ready) r.players

unfoldable pub unset_ready : Player → Player
unset_ready p = record p { ready = false }

module _ ⦃pb : Codec⦄ where
  unfoldable pub tick : Room → Sessions → Room × Sessions
  unfolding broadcast counted_frame next_frame
  tick r n =
      if is_gaming r.state
      then (
        record r { current_frame = next_frame (counted_frame r) },
        broadcast r 2005 (pb.serialize_room_frame_update (record { frame = counted_frame r })) n,
      )
      else (r, n)

  unfoldable pub start_game : Room → Sessions → Room × Sessions
  unfolding broadcast
  start_game r n = (
    record r {
      state = gaming;
      current_frame = record r.current_frame { frame_id = 0; raw_inputs = [] };
    },
    broadcast r 2003 (pb.serialize_game_start_ntf (record { room_id = r.id })) n,
  )

  unfoldable pub stop_game : Room → ℕ → Sessions → Room × Sessions
  unfolding broadcast unset_ready
  stop_game r winner_uid n = (
    record r { state = idle; players = map_values unset_ready r.players },
    broadcast r 2007
        (pb.serialize_game_over_ntf (record { room_id = r.id; winner_uid = winner_uid })) n,
  )

-- One object of the list: the nickname is copied as it is.
unfoldable pub player_json : Player → Bytes
player_json p =
    codes "{\"uid\":"
    ++ (to_string p.uid
        ++ (codes ",\"nickname\":\""
            ++ (p.nickname
                ++ (codes "\",\"character_id\":" ++ (to_string_int p.character_id ++ codes "}")))))

-- The object of one round, with the comma before all but the first.
pub json_item : Bool → Player → Bytes
unfolding player_json
json_item first p = if first then player_json p else codes "," ++ player_json p

json_after : Option Player → Bool → Bytes → Option Bytes
unfolding json_item
json_after none first json = none
json_after (some p) first json = some (json ++ json_item first p)

-- The loop over the uids; `none` is the std::out_of_range of `players_.at`.
pub snapshot_loop : Map ℕ Player → List ℕ → Bool → Bytes → Option Bytes
unfolding json_after
snapshot_loop players [] first json = some (json ++ codes "]")
snapshot_loop players (uid ∷ uids) first json = elim (json_after (find uid players) first json) [
  | none ↦ none
  | some json' ↦ snapshot_loop players uids false json'
]

unfoldable pub build_snapshot_json : Room → Option Bytes
unfolding snapshot_loop
build_snapshot_json r = snapshot_loop r.players r.player_uids true (codes "[")
