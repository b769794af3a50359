-- ===== src/Control.antt =====
-- game_server/src/game_service.cpp, `GameControlServiceImpl::CreateRoom`: the lobby asks for a
-- room.
pub mod Rooms
pub mod Number
pub mod Outcome
use ki_han_server_distribute.Base.{
  ℕ, ◌+◌, ◌-◌, ◌*◌, ◌%◌, ◌^◌, ℤ, pos, negsuc, Bool, true, false, ◌&&◌, ◌||◌, Option, none, some,
  List, [], ◌∷◌, ltb, leb, if◌then◌else◌, ◌==◌, nat_eq,
}
use ki_han_server_distribute.Base.Bytes.{Bytes, codes}
use ki_han_server_distribute.Proto.{CreateRoomReq, CreateRoomRsp}
use ki_han_server_distribute.Json.{Json}
use ki_han_server_distribute.Room.{Room, add_player}
use ki_han_server_distribute.Manager.{Manager, assign, get_or_create_room}

-- The process: the singleton of RoomManager and the counter `next_room_id`.
pub record Game : Type 0 where
  pub manager : Manager
  pub next_room_id : ℕ

-- `isspace`
pub is_space : ℕ → Bool
is_space c = c == 32 || leb 9 c && leb c 13

pub is_digit : ℕ → Bool
is_digit c = leb b'0' c && leb c b'9'

-- The digits in front of the text, read behind `n`; whether there is any is `seen`.
pub read_digits : Bool → ℕ → Bytes → Option ℕ
unfolding is_digit
read_digits seen n [] = if seen then some n else none
read_digits seen n (c ∷ s) =
    let more = read_digits true (n * 10 + (c - b'0')) s in
    if is_digit c then more else if seen then some n else none

-- `none`: std::invalid_argument, or std::out_of_range past 2 ^ 64 - 1.
pub in_range : Bool → Option ℕ → Option ℕ
in_range negative none = none
in_range negative (some n) =
    if leb (2 ^ 64) n then none else some (if negative then (2 ^ 64 - n) % 2 ^ 64 else n)

pub read_signed : Bytes → Option ℕ
unfolding in_range read_digits
read_signed [] = none
read_signed (c ∷ s) =
    if c == b'-'
    then in_range true (read_digits false 0 s)
    else if c == b'+'
    then in_range false (read_digits false 0 s)
    else in_range false (read_digits false 0 (c ∷ s))

-- `std::stoul(text)`, base ten and 64 bits wide.
unfoldable pub stoul : Bytes → Option ℕ
unfolding is_space read_signed
stoul [] = none
stoul (c ∷ s) = let rest = stoul s in if is_space c then rest else read_signed (c ∷ s)

infixl 5 ◌>>=◌
abbrev ◌>>=◌ {ℓ κ} : {A : Type ℓ} {B : Type κ} → Option A → (A → Option B) → Option B
none >>= f = none
some a >>= f = f a

-- `next_room_id.fetch_add(1)`, and the store where the id has passed the limit.
unfoldable pub next_id : ℕ → ℕ
next_id room_id = if ltb 1000000000 room_id then 1000 else room_id + 1

unfoldable pub initial_next_room_id : ℕ
initial_next_room_id = 1000

module _ ⦃js : Json⦄ where
  open js use {Value}

  pub uid_value : Value → Option ℕ
  unfolding stoul
  uid_value v =
      if js.is_string v
      then (do text ← js.get_string v; n ← stoul text; some (n % 2 ^ 32))
      else js.get_uint32 v

  -- The three values that one round of the loop reads, in its order.
  unfoldable pub read_player : Value → Option (ℕ × Bytes × ℤ)
  unfolding uid_value
  read_player p = do
    v ← js.index p (codes "uid")
    uid ← uid_value v
    nickname ← js.value_string p (codes "nickname") []
    char_id ← js.value_int p (codes "character_id") (pos 0)
    some (uid, nickname, char_id)

  -- One round: `none` where it throws, before the room is changed.
  unfoldable pub add_value : Room → Value → Option Room
  unfolding read_player
  add_value r v = do (uid, nickname, char_id) ← read_player v; add_player r uid nickname char_id

  -- The room after the loop, and whether it got through.
  unfoldable pub add_values : Room → List Value → Room × Bool
  unfolding add_value
  add_values r [] = (r, true)
  add_values r (v ∷ vs) = elim (add_value r v) [ none ↦ (r, false) | some r' ↦ add_values r' vs ]

  unfoldable pub add_parsed : Room → Option Value → Room × Bool
  unfolding add_values
  add_parsed r none = (r, false)
  add_parsed r (some players) = add_values r (js.elements players)

  pub respond : ℕ → Bool → CreateRoomRsp
  respond room_id true = record { err_code = pos 0; room_id = pos room_id }
  respond room_id false = record { err_code = negsuc 0; room_id = pos 0 }

  unfoldable pub create_room : Game → CreateRoomReq → Game × CreateRoomRsp
  unfolding add_parsed respond next_id
  create_room g req =
      let (m, p) = get_or_create_room (pos g.next_room_id) g.manager in
      let (r, done) = add_parsed (m.objects p) (js.parse req.player_list_json) in
      (
        record { manager = assign p r m; next_room_id = next_id g.next_room_id },
        respond g.next_room_id done,
      )
