-- ===== src/Locks/Rooms.antt =====
-- CreateRoom of game_service.cpp and the run loop of room_manager.cpp, section by section.
use ki_han_server_distribute.Base.{
  ℕ, ◌+◌, ℤ, pos, Bool, true, false, Option, none, some, List, [], ◌∷◌, ltb, if◌then◌else◌, nat_eq,
}
use ki_han_server_distribute.Base.Bytes.{Bytes}
use ki_han_server_distribute.Proto.{Codec, CreateRoomReq, CreateRoomRsp}
use ki_han_server_distribute.Json.{Json}
use ki_han_server_distribute.Room.{
  Room, RoomState, idle, gaming, add_player, is_full, check_all_ready, start_game, tick,
}
use ki_han_server_distribute.Manager.{assign, apply_method, get_or_create_room, rooms_to_process}
use ki_han_server_distribute.Control.{Game, read_player, respond, initial_next_room_id}
use ki_han_server_distribute.Threads.{Task, ret, atomic, change, ◌>>=◌, ◌>>◌}
use ki_han_server_distribute.Locks.{read, edit}

-- `next_room_id.fetch_add(1)`. The counter has room for 2 ^ 31 - 1000000001 calls between one that
-- passes the limit and its store, so the wrap of an int32 is left out.
unfoldable pub fetch_add : Task Game ℕ
fetch_add = atomic (λ g. record g { next_room_id = g.next_room_id + 1 }) (λ g. ret g.next_room_id)

unfoldable pub store_back : Bool → Task Game (Unit {0})
store_back past =
    if past then change (λ g. record g { next_room_id = initial_next_room_id }) else ret tt

-- GetOrCreateRoom
unfoldable pub get_or_create_task : ℕ → Task Game ℕ
get_or_create_task room_id =
    atomic (λ g. record g { manager = (get_or_create_room (pos room_id) g.manager).0 })
      (λ g. ret (get_or_create_room (pos room_id) g.manager).1)

-- The room that AddPlayer leaves, and whether it got through.
unfoldable pub added : Option Room → Room → Room × Bool
added none r = (r, false)
added (some r') r = (r', true)

unfoldable pub add_player_task : ℕ → ℕ × Bytes × ℤ → Task Game Bool
unfolding added
add_player_task p (uid, nickname, char_id) =
    atomic
      (λ g. record g {
        manager =
            assign p
              (added (add_player (g.manager.objects p) uid nickname char_id)
                (g.manager.objects p)).0
              g.manager;
      })
      (λ g.
        ret (added (add_player (g.manager.objects p) uid nickname char_id) (g.manager.objects p)).1)

module _ ⦃js : Json⦄ where
  open js use {Value}

  -- The loop over the players; `false` where it throws.
  unfoldable pub add_each : ℕ → List Value → Task Game Bool
  unfolding add_player_task
  add_each p [] = ret true
  add_each p (v ∷ vs) = elim (read_player v) [
    | none ↦ ret false
    | some player ↦
        add_player_task p player >>= λ through. if through then add_each p vs else ret false
  ]

  unfoldable pub add_all : ℕ → Option Value → Task Game Bool
  unfolding add_each
  add_all p none = ret false
  add_all p (some players) = add_each p (js.elements players)

  unfoldable pub create_task : CreateRoomReq → Task Game CreateRoomRsp
  unfolding fetch_add store_back get_or_create_task add_all
  create_task req = do
    room_id ← fetch_add
    store_back (ltb 1000000000 room_id)
    p ← get_or_create_task room_id
    through ← add_all p (js.parse req.player_list_json)
    ret (respond room_id through)

module _ ⦃pb : Codec⦄ where
  -- The state is read once for each of the two tests.
  unfoldable pub idle_room : ℕ → RoomState → Task Game (Unit {0})
  idle_room p gaming = ret tt
  idle_room p idle = do
    full ← read (λ m. is_full (m.objects p))
    if full
        then (do
          ready ← read (λ m. check_all_ready (m.objects p))
          if ready then edit (apply_method p start_game) else ret tt)
        else ret tt

  unfoldable pub loop_room : ℕ → RoomState → Task Game (Unit {0})
  unfolding idle_room
  loop_room p gaming = edit (apply_method p tick)
  loop_room p idle = do state ← read (λ m. (m.objects p).state); idle_room p state

  unfoldable pub loop_rooms : List ℕ → Task Game (Unit {0})
  unfolding loop_room
  loop_rooms [] = ret tt
  loop_rooms (p ∷ ps) = do state ← read (λ m. (m.objects p).state); loop_room p state; loop_rooms ps

  -- One round of `RunLoop`.
  unfoldable pub round_task : Task Game (Unit {0})
  unfolding loop_rooms
  round_task = do rooms ← read rooms_to_process; loop_rooms rooms
