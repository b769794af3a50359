-- ===== src/Lobby/Matching.antt =====
-- A match, from the lobby's queue (lobby_service.cpp) to the game server's room
-- (game_service.cpp), with the real CreateRoom behind the stub.
use mathlib.Core.List.{append_assoc}
use ki_han_server_distribute.Base.{
  ℕ, ◌<◌, ◌^◌, ℤ, pos, false, none, some, List, [], ◌∷◌, ◌++◌, ◌≡◌, ◌≢◌, refl, arith, nat_eq,
  int_eq, nat_beq_iff,
}
use ki_han_server_distribute.Base.Map.{find}
use ki_han_server_distribute.Base.Bytes.{Bytes, codes, to_string_int}
use ki_han_server_distribute.Proto.{GatewayRequest, GatewayResponse}
use ki_han_server_distribute.LobbyProto.{LobbyCodec, MatchGameReq}
use ki_han_server_distribute.Json.{Json}
use ki_han_server_distribute.Db.{Database, DbManager, get_player_data}
use ki_han_server_distribute.Room.Duel.{duel}
use ki_han_server_distribute.Manager.{get_room}
use ki_han_server_distribute.Control.{Game, create_room, read_player, uid_value}
use ki_han_server_distribute.Control.Outcome.{create_room_two}
use ki_han_server_distribute.Lobby.Online.{announce-SamePlayers}
use ki_han_server_distribute.Lobby.{
  Service, MatchPlayer, Lobby, GameStub, in_queue, enqueue, take_pair, push_to_gateway, push_on,
  pushed_response, announce, push_room, handle_match_game, request_room, matched, match_with,
  match_game_for, nickname_of, player_list, answer, lobby_err_ok,
}

-- What the servers rely on of nlohmann::json: the dumped list of two players parses back, an array
-- is iterated in order, and the fields of an object that was built from a player are read back.
pub record JsonLaws ⦃js : Json⦄ : Type 0 where
  pub parse-dump :
      (u u' : ℕ) (n n' : Bytes) (c c' : ℤ) (text : Bytes)
      → js.dump (js.array (js.player_object u n c ∷ js.player_object u' n' c' ∷ [])) ≡ some text
      → js.parse text ≡ some (js.array (js.player_object u n c ∷ js.player_object u' n' c' ∷ []))
  pub elements-array : (vs : List js.Value) → js.elements (js.array vs) ≡ vs
  pub uid_field :
      (u : ℕ) (n : Bytes) (c : ℤ)
      → u < 2 ^ 32
      → (x : js.Value) × (js.index (js.player_object u n c) (codes "uid") ≡ some x)
        × (js.is_string x ≡ false)
        × (js.get_uint32 x ≡ some u)
  pub nickname_field :
      (u : ℕ) (n : Bytes) (c : ℤ)
      → js.value_string (js.player_object u n c) (codes "nickname") [] ≡ some n
  pub character_field :
      (u : ℕ) (n : Bytes) (c : ℤ)
      → js.value_int (js.player_object u n c) (codes "character_id") (pos 0) ≡ some c

module _ ⦃js : Json⦄ where
  -- The game server's own CreateRoom as the stub that the lobby calls.
  instance abbrev pub game_server : GameStub
  game_server = record {
    Server = Game;
    create_room = λ g req. ((create_room g req).0, some (create_room g req).1);
  }

  read_player_object :
      JsonLaws
      → (u : ℕ) (n : Bytes) (c : ℤ) → u < 2 ^ 32
      → read_player (js.player_object u n c) ≡ some (u, n, c)
  unfolding read_player
  read_player_object laws u n c fits =
      let (x, indexed, plain, number) = laws.uid_field u n c fits in
      rw (indexed, uid_value, plain, number, laws.nickname_field u n c, laws.character_field u n c)

abbrev pub player_of : MatchPlayer → ℕ × Bytes × ℤ
player_of p = (p.uid, p.nickname, p.character_id)

module _ ⦃pb : LobbyCodec⦄ where
  -- The notice of a match for a player, as the gateway gets it.
  abbrev pub match_notice : MatchPlayer → ℕ → ℤ → Bytes → GatewayResponse
  match_notice p position room_id json = pushed_response p.conn_id 1007 (
      pb.serialize_match_game_ntf (record {
        err_code = pos 0;
        room_id = to_string_int room_id;
        position = pos position;
        room_snapshot_json = json;
      }))

  announce_made :
      (s : ℕ) (room_id : ℤ) (p1 p2 : MatchPlayer) (json : Bytes) (l : Service)
      → l.push_writer ≡ some s
      → (announce (some (record { err_code = pos 0; room_id = room_id })) p1 p2 json l).pushed
        ≡ l.pushed ++ (s, match_notice p1 1 room_id json) ∷ (s, match_notice p2 2 room_id json) ∷ []
  unfolding announce push_room push_to_gateway push_on
  announce_made s room_id p1 p2 json l e = rw (e, push_on, append_assoc)

-- The next player takes the one that waits along; the queue is then empty.
pair_waiting :
    (p1 p2 : MatchPlayer) → p1.uid ≢ p2.uid → take_pair (enqueue p2 (p1 ∷ [])) ≡ (some (p1, p2), [])
unfolding take_pair enqueue in_queue
pair_waiting p1 p2 ne = ground (arith, nat_beq_iff p1.uid p2.uid)

module _ ⦃pb : LobbyCodec⦄ ⦃js : Json⦄ ⦃db : Database⦄ where
  abbrev pub MatchLobby : Type 0
  MatchLobby = Lobby

  -- The queue entry that a match request makes.
  unfoldable pub entry_of : GatewayRequest → MatchGameReq → DbManager → MatchPlayer
  entry_of req game d = record {
    uid = req.uid;
    conn_id = req.conn_id;
    character_id = game.character_id;
    nickname = nickname_of (get_player_data d req.uid);
  }

  -- What holds before a match of a waiting player with the player of a request.
  pub record Ready (p1 : MatchPlayer) (req : GatewayRequest) (game : MatchGameReq) (json : Bytes)
      (stream : ℕ) (w : MatchLobby) : Type 0 where
    pub parsed : pb.parse_match_game_req req.payload ≡ some game
    pub waiting : w.service.match_queue ≡ p1 ∷ []
    pub other : p1.uid ≢ req.uid
    pub narrow : (p1.uid < 2 ^ 32) × (req.uid < 2 ^ 32)
    pub dumped : js.dump (player_list p1 (entry_of req game w.database)) ≡ some json
    pub fresh : find (pos w.game.next_room_id) w.game.manager.rooms ≡ none
    pub subscribed : w.service.push_writer ≡ some stream

  object_of : MatchPlayer → js.Value
  object_of p = js.player_object p.uid p.nickname p.character_id

  elements-player_list :
      (p1 p2 : MatchPlayer)
      → JsonLaws
      → js.elements (player_list p1 p2) ≡ object_of p1 ∷ object_of p2 ∷ []
  unfolding player_list object_of
  elements-player_list p1 p2 laws = laws.elements-array _

  read-object_of :
      (p : MatchPlayer) → JsonLaws → p.uid < 2 ^ 32 → read_player (object_of p) ≡ some (player_of p)
  unfolding object_of
  read-object_of p laws fits = read_player_object laws p.uid p.nickname p.character_id fits

  parsed_back :
      (p1 p2 : MatchPlayer) (json : Bytes)
      → JsonLaws
      → js.dump (player_list p1 p2) ≡ some json
      → js.parse json ≡ some (player_list p1 p2)
  unfolding player_list
  parsed_back p1 p2 json laws dumped =
      laws.parse-dump p1.uid p2.uid p1.nickname p2.nickname p1.character_id p2.character_id json
        dumped

  -- CreateRoom on the list that the lobby sends.
  create_duel :
      (g : Game) (p1 p2 : MatchPlayer) (json : Bytes)
      → JsonLaws
      → p1.uid ≢ p2.uid
      → p1.uid < 2 ^ 32
      → p2.uid < 2 ^ 32
      → js.dump (player_list p1 p2) ≡ some json
      → find (pos g.next_room_id) g.manager.rooms ≡ none
      → let (g', room) = create_room g (record { player_list_json = json }) in
        (room ≡ record { err_code = pos 0; room_id = pos g.next_room_id })
        × (get_room g'.manager (pos g.next_room_id) ≡ some g.manager.allocated)
        × (g'.manager.objects g.manager.allocated
            ≡ duel (pos g.next_room_id) (player_of p1) (player_of p2))
  create_duel g p1 p2 json laws other n1 n2 dumped fresh =
      create_room_two g (record { player_list_json = json }) (player_list p1 p2) (object_of p1)
        (object_of p2) (player_of p1) (player_of p2) fresh (parsed_back p1 p2 json laws dumped)
        (elements-player_list p1 p2 laws) (read-object_of p1 laws n1) (read-object_of p2 laws n2)
        other

  -- The handler on the way of a match.
  step :
      (p1 : MatchPlayer) (req : GatewayRequest) (game : MatchGameReq) (json : Bytes) (stream : ℕ)
      (w : MatchLobby) (rsp : GatewayResponse)
      → Ready p1 req game json stream w
      → handle_match_game req w rsp ≡ (
        request_room p1
            (entry_of req game w.database)
            json
            (record w { service = record w.service { match_queue = [] } }),
        some (answer rsp 1005 (pb.serialize_match_game_rsp (record { err_code = lobby_err_ok }))),
      )
  unfolding handle_match_game entry_of
  step p1 req game json stream w rsp h =
      rw
        (
          h.parsed,
          match_game_for,
          match_with,
          h.waiting,
          pair_waiting p1 (entry_of req game w.database) h.other,
          matched,
          h.dumped,
        )
        refl

  -- Under the laws of the JSON library, when a request to match parses and finds one other player
  -- waiting, with 32-bit uids, a list that dumps, a next room id not in use and a subscribed
  -- gateway: the two leave the queue; the game server has an idle room for them under its next id,
  -- the one who waited on seat 1 and the other on seat 2; and the gateway is pushed one notice for
  -- each, in this order, with the room's id and the seat as position. The request itself is
  -- answered with OK.
  pub handle_match_game_matched :
      (p1 : MatchPlayer) (req : GatewayRequest) (game : MatchGameReq) (json : Bytes) (stream : ℕ)
      (w : MatchLobby) (rsp : GatewayResponse)
      → JsonLaws
      → Ready p1 req game json stream w
      → let room_id = pos w.game.next_room_id in
        let p2 = entry_of req game w.database in
        let (w', answered) = handle_match_game req w rsp in
        (w'.service.match_queue ≡ [])
        × (get_room w'.game.manager room_id ≡ some w.game.manager.allocated)
        × (w'.game.manager.objects w.game.manager.allocated
            ≡ duel room_id (player_of p1) (player_of p2))
        × (w'.service.pushed
            ≡ w.service.pushed
              ++ (stream, match_notice p1 1 room_id json)
                ∷ (stream, match_notice p2 2 room_id json)
                ∷ [])
        × (answered
            ≡ some (
                answer rsp 1005 (pb.serialize_match_game_rsp (record { err_code = lobby_err_ok }))))
  unfolding handle_match_game
  handle_match_game_matched p1 req game json stream w rsp laws h =
      let p2 = entry_of req game w.database in
      let other : p1.uid ≢ p2.uid = (unfold entry_of in h.other) in
      let narrow : p2.uid < 2 ^ 32 = (unfold entry_of in h.narrow.1) in
      let (told, found, made) =
        create_duel w.game p1 p2 json laws other h.narrow.0 narrow h.dumped h.fresh in
      rw (step p1 req game json stream w rsp h) (
        (announce-SamePlayers _ p1 p2 json _).queue,
        found,
        made,
        rw told (announce_made stream (pos w.game.next_room_id) p1 p2 json _ h.subscribed),
        refl,
      )
