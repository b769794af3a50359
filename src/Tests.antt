-- ===== src/Tests.antt =====
-- Small stand-ins for what is not part of the repository (the generated message code, the JSON
-- library, the database), and the runs of the model on them.
pub mod Rooms
pub mod Server
pub mod Matches
pub mod Front
pub mod Accounts
pub mod Threads
pub mod Queues
use ki_han_server_distribute.Base.{
  ℕ, ◌+◌, ℤ, pos, negsuc, Bool, true, false, Option, none, some, List, [], ◌∷◌, ◌++◌, ◌≡◌, refl, ap,
  ◌<◌, ◌^◌,
}
use ki_han_server_distribute.Base.Bytes.{Bytes, codes}
use ki_han_server_distribute.Proto.{Codec, EnterRoomReq, PlayerReadyReq, GameOverReq}
use ki_han_server_distribute.LobbyProto.{LobbyCodec, CreateRoleReq, MatchGameReq}
use ki_han_server_distribute.Json.{Json}
use ki_han_server_distribute.Db.{Database, Param}

abbrev pub magnitude : ℤ → ℕ
magnitude (pos n) = n
magnitude (negsuc n) = n + 1

-- One byte holds the offset of a room's id from 1000.
abbrev read_enter : Bytes → Option EnterRoomReq
read_enter (b ∷ []) = some (record { room_id = pos (1000 + b) })
read_enter _ = none

abbrev read_ready : Bytes → Option PlayerReadyReq
read_ready (b ∷ []) = some (record { room_id = pos (1000 + b) })
read_ready _ = none

abbrev read_over : Bytes → Option GameOverReq
read_over (b ∷ w ∷ []) =
    some (record { room_id = pos (1000 + b); winner_uid = w; p1_hp = pos 0; p2_hp = pos 0 })
read_over _ = none

instance abbrev pub byte_codec : Codec
byte_codec = record {
  parse_enter_room_req = read_enter;
  parse_player_ready_req = read_ready;
  parse_game_over_req = read_over;
  serialize_enter_room_rsp = λ r. magnitude r.err_code ∷ magnitude r.my_game_id ∷ [];
  serialize_player_ready_rsp = λ r. magnitude r.err_code ∷ [];
  serialize_game_over_rsp = λ r. magnitude r.err_code ∷ [];
  serialize_game_start_ntf = λ r. magnitude r.room_id ∷ [];
  serialize_room_frame_update = λ r. r.frame.frame_id ∷ r.frame.player_count ∷ [];
  serialize_game_over_ntf = λ r. magnitude r.room_id ∷ r.winner_uid ∷ [];
}

abbrev read_role : Bytes → Option CreateRoleReq
read_role n = some (record { nickname = n })

abbrev read_match : Bytes → Option MatchGameReq
read_match (c ∷ []) = some (record { character_id = pos c })
read_match _ = none

instance abbrev pub byte_lobby_codec : LobbyCodec
byte_lobby_codec = record {
  parse_login_req = λ _. true;
  parse_create_role_req = read_role;
  parse_match_game_req = read_match;
  serialize_login_rsp = λ r. magnitude r.err_code ∷ [];
  serialize_logout_rsp = λ r. magnitude r.err_code ∷ [];
  serialize_create_role_rsp = λ r. magnitude r.err_code ∷ [];
  serialize_match_game_rsp = λ r. magnitude r.err_code ∷ [];
  serialize_match_stop_rsp = λ r. magnitude r.err_code ∷ [];
  serialize_match_game_ntf = λ r. magnitude r.err_code ∷ magnitude r.position ∷ r.room_id;
  serialize_get_player_data_rsp = λ r. magnitude r.err_code ∷ [];
  serialize_get_online_count_rsp = λ r. magnitude r.online_count ∷ [];
}

-- JSON values: numbers, lists and the objects of players.
pub data Tree : Type 0 where
  leaf : ℕ → Tree
  item : ℕ → Bytes → ℤ → Tree
  nil : Tree
  cons : Tree → Tree → Tree

abbrev pub elements_of : Tree → List Tree
elements_of (leaf n) = []
elements_of (item u n c) = []
elements_of nil = []
elements_of (cons t ts) = t ∷ elements_of ts

abbrev pub array_of : List Tree → Tree
array_of [] = nil
array_of (t ∷ ts) = cons t (array_of ts)

-- A player with a nickname of one byte.
abbrev pub print_item : Tree → Option (ℕ × ℕ × ℕ)
print_item (leaf n) = none
print_item nil = none
print_item (cons t ts) = none
print_item (item u [] c) = none
print_item (item u (x ∷ y ∷ n) c) = none
print_item (item u (x ∷ []) (negsuc c)) = none
print_item (item u (x ∷ []) (pos c)) = some (u, x, c)

abbrev pub join_items : Option (ℕ × ℕ × ℕ) → Option (ℕ × ℕ × ℕ) → Option Bytes
join_items none b = none
join_items (some a) none = none
join_items (some (u, x, c)) (some (u', x', c')) = some (u ∷ x ∷ c ∷ u' ∷ x' ∷ c' ∷ [])

abbrev pub print_two : List Tree → Option Bytes
print_two [] = none
print_two (a ∷ []) = none
print_two (a ∷ b ∷ []) = join_items (print_item a) (print_item b)
print_two (a ∷ b ∷ c ∷ ts) = none

-- Whether a tree is a list to its end.
abbrev pub as_list : Tree → Option (List Tree)
as_list (leaf n) = none
as_list (item u n c) = none
as_list nil = some []
as_list (cons t ts) = elim (as_list ts) [ none ↦ none | some l ↦ some (t ∷ l) ]

abbrev pub print_list : Option (List Tree) → Option Bytes
print_list none = none
print_list (some ts) = print_two ts

abbrev pub read_two : Bytes → Option Tree
read_two (u ∷ x ∷ c ∷ u' ∷ x' ∷ c' ∷ []) =
    some (cons (item u (x ∷ []) (pos c)) (cons (item u' (x' ∷ []) (pos c')) nil))
read_two _ = none

abbrev index_of : Tree → Option Tree
index_of (item u n c) = some (leaf u)
index_of _ = none

abbrev nickname_in : Tree → Option Bytes
nickname_in (item u n c) = some n
nickname_in _ = none

abbrev character_in : Tree → Option ℤ
character_in (item u n c) = some c
character_in _ = none

abbrev number_in : Tree → Option ℕ
number_in (leaf n) = some n
number_in _ = none

instance abbrev pub tree_json : Json
tree_json = record {
  Value = Tree;
  parse = read_two;
  dump = λ t. print_list (as_list t);
  elements = elements_of;
  index = λ t key. index_of t;
  value_string = λ t key fallback. nickname_in t;
  value_int = λ t key fallback. character_in t;
  is_string = λ t. false;
  get_string = λ t. none;
  get_uint32 = number_in;
  player_object = item;
  array = array_of;
}

-- A database in which everybody is called "B".
instance abbrev pub same_name : Database
same_name = record {
  Session = ℕ;
  Value = Bytes;
  connect = λ host port user password. some 0;
  execute = λ statement params s. some (s + 1);
  select_player = λ name uid s. some (some (codes "B", codes "{}"));
  count_players = λ name uid s. some 1;
  is_null = λ v. false;
  is_string = λ v. true;
  print = λ v. b'"' ∷ (v ++ b'"' ∷ []);
}
