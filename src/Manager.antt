-- ===== src/Manager.antt =====
-- game_server/src/room_manager.h and room_manager.cpp: the rooms, the players' rooms and the run
-- loop. A `std::shared_ptr<Room>` is a number, the index of a heap of room objects, so that a room
-- which was taken out of `rooms_` lives on where the run loop still holds its pointer.
pub mod Invariant
pub mod Loop
pub mod Destroy
pub mod Start
pub mod Round
pub mod Running
pub mod Process
use ki_han_server_distribute.Base.{
  ℕ, ◌+◌, ℤ, Option, none, some, List, [], ◌∷◌, map, if◌then◌else◌, ◌==◌, nat_eq, int_eq, ◌&&◌,
}
use ki_han_server_distribute.Base.Map.{Map, find, set, erase}
use ki_han_server_distribute.Proto.{Codec}
use ki_han_server_distribute.Sessions.{Sessions}
use ki_han_server_distribute.Room.{
  Room, RoomState, idle, gaming, new_room, get_player_uids, is_full, check_all_ready, tick,
  start_game,
}

pub record Manager : Type 0 where
  pub rooms : Map ℤ ℕ
  pub uid_to_room : Map ℕ ℤ
  pub net : Sessions
  pub objects : ℕ → Room
  -- The pointers from here on have not been handed out.
  pub allocated : ℕ

unfoldable pub empty_manager : Manager
unfolding new_room
empty_manager = record {
  rooms = [];
  uid_to_room = [];
  net = record { sessions = []; sent = [] };
  objects = λ _. new_room (ℤ.pos 0);
  allocated = 0;
}

-- The object behind a pointer is changed.
unfoldable pub assign : ℕ → Room → Manager → Manager
assign p r m = record m { objects = λ q. if p == q then r else m.objects q }

unfoldable pub make_shared : ℤ → Manager → Manager × ℕ
unfolding assign
make_shared room_id m =
    let p = m.allocated in
    (record (assign p (new_room room_id) m) { rooms = set room_id p m.rooms; allocated = p + 1 }, p)

unfoldable pub found_or_made : Option ℕ → ℤ → Manager → Manager × ℕ
unfolding make_shared
found_or_made none room_id m = make_shared room_id m
found_or_made (some p) room_id m = (m, p)

unfoldable pub get_or_create_room : ℤ → Manager → Manager × ℕ
unfolding found_or_made
get_or_create_room room_id m = found_or_made (find room_id m.rooms) room_id m

unfoldable pub get_room : Manager → ℤ → Option ℕ
get_room m room_id = find room_id m.rooms

unfoldable pub remove_room : ℤ → Manager → Manager
remove_room room_id m = record m { rooms = erase room_id m.rooms }

unfoldable pub room_of : Manager → Option ℤ → Option ℕ
unfolding get_room
room_of m none = none
room_of m (some room_id) = get_room m room_id

unfoldable pub get_room_by_uid : Manager → ℕ → Option ℕ
unfolding room_of
get_room_by_uid m uid = room_of m (find uid m.uid_to_room)

unfoldable pub map_uid_to_room : ℕ → ℤ → Manager → Manager
map_uid_to_room uid room_id m = record m { uid_to_room = set uid room_id m.uid_to_room }

unfoldable pub unmap_uid : ℕ → Manager → Manager
unmap_uid uid m = record m { uid_to_room = erase uid m.uid_to_room }

unfoldable pub unmap_uids : List ℕ → Manager → Manager
unfolding unmap_uid
unmap_uids [] m = m
unmap_uids (uid ∷ uids) m = unmap_uids uids (unmap_uid uid m)

unfoldable pub destroy : Option ℕ → ℤ → Manager → Manager
unfolding unmap_uids remove_room
destroy none room_id m = m
destroy (some p) room_id m = remove_room room_id (unmap_uids (get_player_uids (m.objects p)) m)

unfoldable pub destroy_room : ℤ → Manager → Manager
unfolding get_room destroy
destroy_room room_id m = destroy (get_room m room_id) room_id m

-- A method of the object behind a pointer that broadcasts.
unfoldable pub apply_method : ℕ → (Room → Sessions → Room × Sessions) → Manager → Manager
unfolding assign
apply_method p method m =
    let (r, n) = method (m.objects p) m.net in record (assign p r m) { net = n }

-- The pointers that the run loop copies under the lock of `rooms_`.
unfoldable pub rooms_to_process : Manager → List ℕ
rooms_to_process m = map (λ pair. pair.1) m.rooms

module _ ⦃pb : Codec⦄ where
  unfoldable pub process_state : RoomState → ℕ → Manager → Manager
  unfolding apply_method
  process_state gaming p m = apply_method p tick m
  process_state idle p m =
      if is_full (m.objects p) && check_all_ready (m.objects p)
      then apply_method p start_game m
      else m

  -- The loop's body, for one pointer of the copied list.
  unfoldable pub process_room : ℕ → Manager → Manager
  unfolding process_state
  process_room p m = process_state (m.objects p).state p m

  unfoldable pub process_rooms : List ℕ → Manager → Manager
  unfolding process_room
  process_rooms [] m = m
  process_rooms (p ∷ ps) m = process_rooms ps (process_room p m)

  -- One round of `RunLoop`, with nothing between its rooms.
  unfoldable pub run_loop_round : Manager → Manager
  unfolding rooms_to_process process_rooms
  run_loop_round m = process_rooms (rooms_to_process m) m
