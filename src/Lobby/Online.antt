-- ===== src/Lobby/Online.antt =====
-- The set of online players and the match queue in lobby_service.cpp, under every handler.
use ki_han_server_distribute.Base.{
  ℕ, ◌≤◌, ℤ, Bool, true, false, Option, none, some, List, [], ◌∷◌, ◌≡◌, refl, ◌∙◌, arith,
  if◌then◌else◌, ◌==◌, nat_eq, int_eq, nat_beq_iff, length, elem, Distinct, Distinct-snoc,
  Distinct-erase_first, elem-erase_first, elem-erase_first_ne, Bool-cases, Option-cases, inl, inr,
}
use ki_han_server_distribute.Base.Bytes.{Bytes}
use ki_han_server_distribute.Proto.{GatewayRequest, GatewayResponse, CreateRoomRsp}
use ki_han_server_distribute.LobbyProto.{LobbyCodec, CreateRoleReq, MatchGameReq}
use ki_han_server_distribute.Json.{Json}
use ki_han_server_distribute.Db.{Database, PlayerData}
use ki_han_server_distribute.Lobby.{
  Service, MatchPlayer, Lobby, GameStub, Handled, init_service, insert_online, erase_online,
  remove_queued, in_queue, enqueue, take_pair, push_to_gateway, push_on, announce,
  client_disconnect, login_with, handle_login, handle_request, of_service, created, create_role_for,
  request_room, matched, match_with, match_game_for, player_list,
}

-- A player counts once, and at most one player waits for a match.
pub record LobbyInv (l : Service) : Type 0 where
  pub once : Distinct l.online_players
  pub waiting : length l.match_queue ≤ 1

pub init_service-LobbyInv : LobbyInv init_service
unfolding init_service
init_service-LobbyInv = record { once = tt; waiting = omega arith }

pub insert_online-LobbyInv : (uid : ℕ) (l : Service) → LobbyInv l → LobbyInv (insert_online uid l)
unfolding insert_online
insert_online-LobbyInv uid l v = elim (Bool-cases (elem uid l.online_players)) [
  | inl old ↦ rw old v
  | inr new ↦
      rw new (record { once = Distinct-snoc uid l.online_players new v.once; waiting = v.waiting })
]

pub erase_online-LobbyInv : (uid : ℕ) (l : Service) → LobbyInv l → LobbyInv (erase_online uid l)
unfolding erase_online
erase_online-LobbyInv uid l v = record {
  once = Distinct-erase_first uid l.online_players v.once;
  waiting = v.waiting;
}

pub length-remove_queued-le :
    (uid : ℕ) (q : List MatchPlayer) → length (remove_queued uid q) ≤ length q
unfolding remove_queued
length-remove_queued-le uid [] = omega arith
length-remove_queued-le uid (p ∷ q) = ground (arith, length-remove_queued-le uid q)

pub length-take_pair :
    (p : MatchPlayer) (q : List MatchPlayer) → length q ≤ 1 → length (take_pair (enqueue p q)).1 ≤ 1
unfolding take_pair enqueue in_queue
length-take_pair p [] h = omega arith
length-take_pair p (x ∷ []) h = ground arith
length-take_pair p (x ∷ y ∷ q) h = absurd (omega arith)

in_queue-remove_queued :
    (uid v : ℕ) (q : List MatchPlayer)
    → in_queue v (remove_queued uid q) ≡ (if uid == v then false else in_queue v q)
unfolding in_queue remove_queued
in_queue-remove_queued uid v [] = ground arith
in_queue-remove_queued uid v (p ∷ q) = ground (
  arith,
  in_queue-remove_queued uid v q,
  nat_beq_iff p.uid uid,
  nat_beq_iff p.uid v,
  nat_beq_iff uid v,
)

elem-erase_online :
    (uid v : ℕ) (l : Service)
    → LobbyInv l
    → elem v (erase_online uid l).online_players
      ≡ (if uid == v then false else elem v l.online_players)
unfolding erase_online
elem-erase_online uid v l h = elim (Bool-cases (uid == v)) [
  | inl hit ↦
      let e : uid ≡ v = (nat_beq_iff uid v).0 hit in
      rw (hit, ← e) (elem-erase_first uid l.online_players h.once)
  | inr miss ↦ rw miss (elem-erase_first_ne uid v l.online_players miss)
]

-- Where every online player is counted once, a disconnect takes its uid, whatever its connection,
-- out of the set of online players and out of the match queue, and nobody else.
pub client_disconnect_found :
    (req : GatewayRequest) (v : ℕ) (l : Service)
    → LobbyInv l
    → (elem v (client_disconnect req l).online_players
        ≡ (if req.uid == v then false else elem v l.online_players))
      × (in_queue v (client_disconnect req l).match_queue
          ≡ (if req.uid == v then false else in_queue v l.match_queue))
unfolding client_disconnect
client_disconnect_found req v l h =
    (elem-erase_online req.uid v l h, in_queue-remove_queued req.uid v l.match_queue)

pub client_disconnect-LobbyInv :
    (req : GatewayRequest) (l : Service) → LobbyInv l → LobbyInv (client_disconnect req l)
unfolding client_disconnect
client_disconnect-LobbyInv req l v =
    let w = erase_online-LobbyInv req.uid l v in
    record {
      once = w.once;
      waiting = omega (arith, length-remove_queued-le req.uid l.match_queue, v.waiting);
    }

-- A push changes neither.
pub record SamePlayers (l l' : Service) : Type 0 where
  pub online : l'.online_players ≡ l.online_players
  pub queue : l'.match_queue ≡ l.match_queue

pub SamePlayers-LobbyInv : {l l' : Service} → SamePlayers l l' → LobbyInv l → LobbyInv l'
SamePlayers-LobbyInv s v = record { once = rw s.online v.once; waiting = rw s.queue v.waiting }

push_on-SamePlayers :
    (o : Option ℕ) (r : GatewayResponse) (l : Service) → SamePlayers l (push_on o r l)
unfolding push_on
push_on-SamePlayers none r l = record { online = refl; queue = refl }
push_on-SamePlayers (some w) r l = record { online = refl; queue = refl }

SamePlayers-trans : {l l' l'' : Service} → SamePlayers l l' → SamePlayers l' l'' → SamePlayers l l''
SamePlayers-trans s t = record { online = t.online ∙ s.online; queue = t.queue ∙ s.queue }

module _ ⦃pb : LobbyCodec⦄ where
  pub push-SamePlayers :
      (conn_id cmd_id : ℕ) (payload : Bytes) (l : Service)
      → SamePlayers l (push_to_gateway conn_id cmd_id payload l)
  unfolding push_to_gateway
  push-SamePlayers conn_id cmd_id payload l = push_on-SamePlayers l.push_writer _ l

  pub announce-SamePlayers :
      (o : Option CreateRoomRsp) (p1 p2 : MatchPlayer) (json : Bytes) (l : Service)
      → SamePlayers l (announce o p1 p2 json l)
  unfolding announce
  announce-SamePlayers none p1 p2 json l =
      SamePlayers-trans (push-SamePlayers p1.conn_id 1007 _ l)
        (push-SamePlayers p2.conn_id 1007 _ _)
  announce-SamePlayers (some room) p1 p2 json l = elim (Bool-cases (room.err_code == ℤ.pos 0)) [
    | inl ok ↦ rw ok (
        SamePlayers-trans (push-SamePlayers p1.conn_id 1007 _ l)
          (push-SamePlayers p2.conn_id 1007 _ _))
    | inr failed ↦ rw failed (
        SamePlayers-trans (push-SamePlayers p1.conn_id 1007 _ l)
          (push-SamePlayers p2.conn_id 1007 _ _))
  ]

module _ ⦃pb : LobbyCodec⦄ ⦃js : Json⦄ ⦃db : Database⦄ ⦃stub : GameStub⦄ where
  abbrev Keeps : Handled → Type 0
  Keeps h = LobbyInv h.0.service

  either : (b : Bool) (x y : Handled) → Keeps x → Keeps y → Keeps (if b then x else y)
  either true x y kx ky = kx
  either false x y kx ky = ky

  login_with-LobbyInv :
      (uid : ℕ) (o : Option PlayerData) (l : Service) (rsp : GatewayResponse)
      → LobbyInv l
      → LobbyInv (login_with uid o (l, rsp)).0
  unfolding login_with
  login_with-LobbyInv uid none l rsp v = v
  login_with-LobbyInv uid (some d) l rsp v = insert_online-LobbyInv uid l v

  handle_login-Keeps :
      (req : GatewayRequest) (w : Lobby) (rsp : GatewayResponse)
      → LobbyInv w.service
      → Keeps (handle_login req w rsp)
  unfolding handle_login of_service
  handle_login-Keeps req w rsp v =
      either (pb.parse_login_req req.payload) _ _ (login_with-LobbyInv req.uid _ w.service rsp v) v

  handle_create_role-Keeps :
      (req : GatewayRequest) (o : Option CreateRoleReq) (w : Lobby) (rsp : GatewayResponse)
      → LobbyInv w.service
      → Keeps (create_role_for req o w rsp)
  unfolding create_role_for created
  handle_create_role-Keeps req none w rsp v = v
  handle_create_role-Keeps req (some role) w rsp v = v

  matched-Keeps :
      (o : Option (MatchPlayer × MatchPlayer)) (w : Lobby) (rsp : GatewayResponse)
      → LobbyInv w.service
      → Keeps (matched o w rsp)
  unfolding matched
  matched-Keeps none w rsp v = v
  matched-Keeps (some (p1, p2)) w rsp v = elim (Option-cases (js.dump (player_list p1 p2))) [
    | inl e ↦ rw (e, matched) v
    | inr (json, e) ↦
        rw (e, matched)
          (unfold request_room in
            SamePlayers-LobbyInv (announce-SamePlayers _ p1 p2 json w.service) v)
  ]

  match_game_for-Keeps :
      (req : GatewayRequest) (o : Option MatchGameReq) (w : Lobby) (rsp : GatewayResponse)
      → LobbyInv w.service
      → Keeps (match_game_for req o w rsp)
  unfolding match_game_for match_with
  match_game_for-Keeps req none w rsp v = v
  match_game_for-Keeps req (some game) w rsp v =
      matched-Keeps _ _ _
        (record { once = v.once; waiting = length-take_pair _ w.service.match_queue v.waiting })

  -- After any request to the lobby, as before it, every online player is counted once and at most
  -- one player waits in the match queue: whoever makes two is matched at once.
  pub handle_request-LobbyInv :
      (req : GatewayRequest) (w : Lobby)
      → LobbyInv w.service
      → LobbyInv (handle_request req w).0.service
  unfolding handle_request
  handle_request-LobbyInv req w v = either (req.cmd_id == 1001) _ _ (handle_login-Keeps req w _ v) (
      either (req.cmd_id == 1002) _ _ (erase_online-LobbyInv req.uid w.service v) (
        either (req.cmd_id == 1003) _ _
          (handle_create_role-Keeps req (pb.parse_create_role_req req.payload) w _ v)
          (either (req.cmd_id == 1005) _ _
            (match_game_for-Keeps req (pb.parse_match_game_req req.payload) w _ v)
            (either (req.cmd_id == 1006) _ _ stopped
              (either (req.cmd_id == 1008) _ _ v (either (req.cmd_id == 1009) _ _ v v))))))
    where
      stopped :
          LobbyInv (record w.service { match_queue = remove_queued req.uid w.service.match_queue })
      stopped = record {
        once = v.once;
        waiting = omega (arith, length-remove_queued-le req.uid w.service.match_queue, v.waiting);
      }
