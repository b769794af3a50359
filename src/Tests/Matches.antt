-- ===== src/Tests/Matches.antt =====
-- The lobby on concrete players and requests, with the game server behind it.
use ki_han_server_distribute.Base.{
  ◌↔◌, ◌⊎◌, ℕ, ℤ, pos, negsuc, true, Option, none, some, List, [], ◌∷◌, ◌++◌, ◌≡◌, inl, inr, refl,
  ap, ◌∙◌, arith, nat_eq, int_eq, elem, Option-cases,
}
use ki_han_server_distribute.Base.Map.{find, set}
use ki_han_server_distribute.Base.Bytes.{Bytes, codes, to_string_int}
use ki_han_server_distribute.Proto.{GatewayRequest}
use ki_han_server_distribute.LobbyProto.{MatchGameReq}
use ki_han_server_distribute.Db.{get_player_data, val_to_string, strip_quotes}
use ki_han_server_distribute.Room.Duel.{duel}
use ki_han_server_distribute.Manager.{empty_manager, get_room}
use ki_han_server_distribute.Lobby.{
  pushed_response, Service, MatchPlayer, handle_match_game, handle_login, answer, empty_response,
  nickname_of, player_list,
}
use ki_han_server_distribute.Lobby.Online.{LobbyInv}
use ki_han_server_distribute.Lobby.Matching.{
  JsonLaws, game_server, MatchLobby, Ready, entry_of, match_notice, player_of,
  handle_match_game_matched,
}
use ki_han_server_distribute.Lobby.Login.{Named, handle_login_online}
use ki_han_server_distribute.Gateway.{
  Gateway, Effect, emit, insert_session, assign, new_session, new_gateway,
}
use ki_han_server_distribute.Gateway.Sending.{client_reads}
use ki_han_server_distribute.Traffic.Relay.{IsOpen}
use ki_han_server_distribute.Traffic.Matched.{on_pushes, match_notified}
use ki_han_server_distribute.Tests.{
  byte_lobby_codec, tree_json, same_name, Tree, leaf, item, nil, cons, elements_of, array_of,
  as_list, print_list, print_two, print_item, join_items, read_two,
}

elements-array_lem : (ts : List Tree) → elements_of (array_of ts) ≡ ts
elements-array_lem [] = refl
elements-array_lem (t ∷ ts) = ap (◌∷◌ t) (elements-array_lem ts)

as_list_back : (t : Tree) (ts : List Tree) → as_list t ≡ some ts → t ≡ array_of ts
as_list_back (leaf n) ts e = cc
as_list_back (item u n c) ts e = cc
as_list_back nil [] e = refl
as_list_back nil (x ∷ ts) e = cc
as_list_back (cons t rest) ts e = elim (Option-cases (as_list rest)) [
  | inl bad ↦ cc (rw bad at e)
  | inr (l, good) ↦
      let head : some (t ∷ l) ≡ some ts = rw good at e in
      let tail : rest ≡ array_of l = as_list_back rest l good in
      let same : t ∷ l ≡ ts = cc in ap (cons t) tail ∙ ap array_of same
]

abbrev item_of : ℕ × ℕ × ℕ → Tree
item_of (u, x, c) = item u (x ∷ []) (pos c)

print_item_back : (t : Tree) (a : ℕ × ℕ × ℕ) → print_item t ≡ some a → t ≡ item_of a
print_item_back (leaf n) a e = cc
print_item_back nil a e = cc
print_item_back (cons t ts) a e = cc
print_item_back (item u [] c) a e = cc
print_item_back (item u (x ∷ y ∷ n) c) a e = cc
print_item_back (item u (x ∷ []) (negsuc c)) a e = cc
print_item_back (item u (x ∷ []) (pos c)) a e = let same : (u, x, c) ≡ a = cc in ap item_of same

read-join_items :
    (a b : Option (ℕ × ℕ × ℕ)) (s t : Tree) (text : Bytes)
    → print_item s ≡ a
    → print_item t ≡ b
    → join_items a b ≡ some text
    → read_two text ≡ some (cons s (cons t nil))
read-join_items none b s t text ea eb e = cc
read-join_items (some a) none s t text ea eb e = cc
read-join_items (some (u, x, c)) (some (u', x', c')) s t text ea eb e =
    let written : u ∷ x ∷ c ∷ u' ∷ x' ∷ c' ∷ [] ≡ text = cc in
    rw (← written, print_item_back s (u, x, c) ea, print_item_back t (u', x', c') eb) refl

read-print_two :
    (ts : List Tree) (text : Bytes) → print_two ts ≡ some text → read_two text ≡ some (array_of ts)
read-print_two [] text e = cc
read-print_two (a ∷ []) text e = cc
read-print_two (a ∷ b ∷ []) text e =
    read-join_items (print_item a) (print_item b) a b text refl refl e
read-print_two (a ∷ b ∷ c ∷ ts) text e = cc

read-print_list :
    (o : Option (List Tree)) (t : Tree) (text : Bytes)
    → as_list t ≡ o
    → print_list o ≡ some text
    → read_two text ≡ some t
read-print_list none t text eo e = cc
read-print_list (some ts) t text eo e =
    read-print_two ts text e ∙ ap some (rw (as_list_back t ts eo) refl)

abbrev pair_tree : ℕ → ℕ → Bytes → Bytes → ℤ → ℤ → Tree
pair_tree u u' n n' c c' = cons (item u n c) (cons (item u' n' c') nil)

abbrev tree_laws : JsonLaws ⦃js = tree_json⦄
tree_laws = record {
  parse-dump = λ u u' n n' c c' text e.
      read-print_list (as_list (pair_tree u u' n n' c c')) (pair_tree u u' n n' c c') text refl e;
  elements-array = elements-array_lem;
  uid_field = λ u n c fits. (leaf u, refl, refl, refl);
  nickname_field = λ u n c. refl;
  character_field = λ u n c. refl;
}

-- Anna waits for a match, and Bert asks for one.
abbrev anna : MatchPlayer
anna = record { uid = 7; conn_id = 70; character_id = pos 1; nickname = codes "A" }

abbrev bert_req : GatewayRequest
bert_req = record { conn_id = 90; uid = 9; cmd_id = 1005; payload = 2 ∷ [] }

abbrev bert_game : MatchGameReq
bert_game = record { character_id = pos 2 }

abbrev waiting : Service
waiting = record {
  online_players = 7 ∷ 9 ∷ [];
  match_queue = anna ∷ [];
  push_writer = some 5;
  pushed = [];
}

abbrev lobby : MatchLobby
lobby = record {
  service = waiting;
  database = record { session = some 0; db_name = codes "kihan" };
  game = record { manager = empty_manager; next_room_id = 1000 };
}

abbrev pair_json : Bytes
pair_json = 7 ∷ b'A' ∷ 1 ∷ 9 ∷ b'B' ∷ 2 ∷ []

lobby-Ready : Ready anna bert_req bert_game pair_json 5 lobby
unfolding entry_of nickname_of get_player_data val_to_string strip_quotes player_list empty_manager
    find
lobby-Ready = record {
  parsed = refl;
  waiting = refl;
  other = omega arith;
  narrow = (omega arith, omega arith);
  dumped = refl;
  fresh = refl;
  subscribed = refl;
}

abbrev bert : MatchPlayer
bert = record { uid = 9; conn_id = 90; character_id = pos 2; nickname = codes "B" }

handle_match_game_matched_example :
    ((handle_match_game bert_req lobby (empty_response bert_req)).0.service.match_queue ≡ [])
    × (get_room
          (handle_match_game bert_req lobby (empty_response bert_req)).0.game.manager
          (pos 1000)
        ≡ some 0)
    × ((handle_match_game bert_req lobby (empty_response bert_req)).0.game.manager.objects 0
        ≡ duel (pos 1000) (player_of anna) (player_of bert))
    × ((handle_match_game bert_req lobby (empty_response bert_req)).0.service.pushed
        ≡ []
          ++ (5, match_notice anna 1 (pos 1000) pair_json)
            ∷ (5, match_notice bert 2 (pos 1000) pair_json)
            ∷ [])
    × ((handle_match_game bert_req lobby (empty_response bert_req)).1
        ≡ some (answer (empty_response bert_req) 1005 (0 ∷ [])))
unfolding entry_of nickname_of get_player_data val_to_string strip_quotes empty_manager
handle_match_game_matched_example =
    handle_match_game_matched anna bert_req bert_game pair_json 5 lobby (empty_response bert_req)
      tree_laws lobby-Ready

abbrev again_req : GatewayRequest
again_req = record { conn_id = 71; uid = 7; cmd_id = 1005; payload = 3 ∷ [] }

waiting-LobbyInv : LobbyInv waiting
unfolding elem
waiting-LobbyInv = record { once = (refl, (refl, tt)); waiting = omega arith }

abbrev login_req : GatewayRequest
login_req = record { conn_id = 110; uid = 11; cmd_id = 1001; payload = [] }

handle_login_online_example :
    (elem 11 (handle_login login_req lobby (empty_response login_req)).0.service.online_players
      ≡ true)
    ↔ ((elem 11 lobby.service.online_players ≡ true)
        ⊎ (login_req.uid ≡ 11) × Named (get_player_data lobby.database 11))
handle_login_online_example = handle_login_online login_req 11 lobby (empty_response login_req) refl

-- The sessions of Anna and Bert on the gateway, under the connections 70 and 90.
abbrev gate : Gateway
gate = (insert_session 90 3 (codes "u") 9 (insert_session 70 9 (codes "t") 7 new_gateway).0).0

gate-IsOpen : IsOpen 0 gate × IsOpen 1 gate
unfolding insert_session assign new_session new_gateway
gate-IsOpen = (
  record { on = refl; id32 = omega arith; key32 = omega arith },
  record { on = refl; id32 = omega arith; key32 = omega arith },
)

match_notified_example :
    let first = match_notice anna 1 (pos 1000) pair_json in
    let second = match_notice bert 2 (pos 1000) pair_json in
    ((handle_match_game bert_req lobby (empty_response bert_req)).0.service.pushed
      ≡ [] ++ (5, first) ∷ (5, second) ∷ [])
    × (e : Effect) × (f : Effect) × (on_pushes (first ∷ second ∷ []) gate
        ≡ some (emit f (emit e gate)))
    × (client_reads 0 (gate.objects 0) e ≡ some (1007, first.payload))
    × (client_reads 1 (gate.objects 1) f ≡ some (1007, second.payload))
unfolding entry_of nickname_of get_player_data val_to_string strip_quotes empty_manager
    insert_session new_gateway find set pushed_response to_string_int
match_notified_example =
    match_notified anna bert_req bert_game pair_json 5 lobby (empty_response bert_req) 0 1 gate
      tree_laws lobby-Ready refl refl gate-IsOpen.0 gate-IsOpen.1 (omega arith) (omega arith)
