-- ===== src/Lobby/Muted.antt =====
-- The lobby (lobby_server/src/lobby_service.cpp) while `push_writer_` is null.
use ki_han_server_distribute.Base.{
  ◌∙◌, ℕ, Bool, true, false, Option, none, some, List, [], ◌∷◌, ◌≡◌, refl, if◌then◌else◌, pos,
  int_eq, nat_eq, elem, ◌==◌, Bool-cases, Option-cases, inl, inr,
}
use ki_han_server_distribute.Base.Bytes.{Bytes}
use ki_han_server_distribute.Proto.{GatewayRequest, GatewayResponse, CreateRoomRsp}
use ki_han_server_distribute.LobbyProto.{LobbyCodec, CreateRoleReq, MatchGameReq}
use ki_han_server_distribute.Json.{Json}
use ki_han_server_distribute.Db.{Database, PlayerData}
use ki_han_server_distribute.Lobby.{
  Service, MatchPlayer, Lobby, GameStub, push_to_gateway, push_on, insert_online, announce,
  push_room, push_failure, handle_request, handle_login, of_service, erase_online, remove_queued,
  client_disconnect, login_with, Handled, create_role_for, created, matched, request_room,
  player_list, match_game_for, match_with,
}

-- No writer, and nothing pushed in between.
pub record Muted (l l' : Service) : Type 0 where
  pub writer : l'.push_writer ≡ none
  pub pushed : l'.pushed ≡ l.pushed

insert_online-Muted : (uid : ℕ) (l : Service) → l.push_writer ≡ none → Muted l (insert_online uid l)
unfolding insert_online
insert_online-Muted uid l e = elim (Bool-cases (elem uid l.online_players)) [
  | inl old ↦ record { writer = rw old e; pushed = rw old refl }
  | inr new ↦ record { writer = rw new e; pushed = rw new refl }
]

push_dropped :
    (conn_id cmd_id : ℕ) (payload : Bytes) (l : Service)
    → l.push_writer ≡ none
    → push_to_gateway conn_id cmd_id payload l ≡ l
unfolding push_to_gateway push_on
push_dropped conn_id cmd_id payload l e = rw e refl

module _ ⦃pb : LobbyCodec⦄ where
  announce_dropped :
      (room : Option CreateRoomRsp) (p1 p2 : MatchPlayer) (json : Bytes) (l : Service)
      → l.push_writer ≡ none
      → announce room p1 p2 json l ≡ l
  unfolding announce push_room push_failure
  announce_dropped none p1 p2 json l e = rw (push_dropped _ _ _ l e) (push_dropped _ _ _ l e)
  announce_dropped (some room) p1 p2 json l e = elim (Bool-cases (room.err_code == pos 0)) [
    | inl ok ↦ rw (ok, push_dropped _ _ _ l e) (push_dropped _ _ _ l e)
    | inr bad ↦ rw (bad, push_dropped _ _ _ l e) (push_dropped _ _ _ l e)
  ]

module _ ⦃pb : LobbyCodec⦄ ⦃js : Json⦄ ⦃db : Database⦄ ⦃stub : GameStub⦄ where
  -- The calls of the lobby other than Subscribe.
  pub data Call : Type 0 where
    request : GatewayRequest → Call
    disconnect : GatewayRequest → Call

  -- What some calls, one behind the other, leave.
  unfoldable pub answer_all : List Call → Lobby → Lobby
  answer_all [] w = w
  answer_all (request req ∷ cs) w = answer_all cs (handle_request req w).0
  answer_all (disconnect req ∷ cs) w =
      answer_all cs (record w { service = client_disconnect req w.service })

  abbrev Keeps : Service → Handled → Type 0
  Keeps l h = Muted l h.0.service

  either :
      (b : Bool) (l : Service) (x y : Handled)
      → Keeps l x
      → Keeps l y
      → Keeps l (if b then x else y)
  either true l x y mx my = mx
  either false l x y mx my = my

  login_with-Muted :
      (uid : ℕ) (o : Option PlayerData) (l : Service) (rsp : GatewayResponse)
      → l.push_writer ≡ none
      → Muted l (login_with uid o (l, rsp)).0
  unfolding login_with
  login_with-Muted uid none l rsp e = record { writer = e; pushed = refl }
  login_with-Muted uid (some d) l rsp e = insert_online-Muted uid l e

  create_role-Muted :
      (req : GatewayRequest) (o : Option CreateRoleReq) (w : Lobby) (rsp : GatewayResponse)
      → w.service.push_writer ≡ none
      → Keeps w.service (create_role_for req o w rsp)
  unfolding create_role_for created
  create_role-Muted req none w rsp e = record { writer = e; pushed = refl }
  create_role-Muted req (some role) w rsp e = record { writer = e; pushed = refl }

  matched-Muted :
      (o : Option (MatchPlayer × MatchPlayer)) (w : Lobby) (rsp : GatewayResponse)
      → w.service.push_writer ≡ none
      → Keeps w.service (matched o w rsp)
  unfolding matched request_room
  matched-Muted none w rsp e = record { writer = e; pushed = refl }
  matched-Muted (some (p1, p2)) w rsp e = elim (Option-cases (js.dump (player_list p1 p2))) [
    | inl none_ ↦ rw (none_, matched) (record { writer = e; pushed = refl })
    | inr (json, found) ↦
        rw (found, matched)
          (let dropped =
              announce_dropped (stub.create_room w.game (record { player_list_json = json })).1 p1
                p2 json w.service e in
            unfold request_room in record { writer = rw dropped e; pushed = rw dropped refl })
  ]

  match_game-Muted :
      (req : GatewayRequest) (o : Option MatchGameReq) (w : Lobby) (rsp : GatewayResponse)
      → w.service.push_writer ≡ none
      → Keeps w.service (match_game_for req o w rsp)
  unfolding match_game_for match_with
  match_game-Muted req none w rsp e = record { writer = e; pushed = refl }
  match_game-Muted req (some game) w rsp e =
      let m = matched-Muted _ _ _ e in record { writer = m.writer; pushed = m.pushed }

  handle_login-Muted :
      (req : GatewayRequest) (w : Lobby) (rsp : GatewayResponse)
      → w.service.push_writer ≡ none
      → Keeps w.service (handle_login req w rsp)
  unfolding handle_login of_service
  handle_login-Muted req w rsp e =
      either (pb.parse_login_req req.payload) w.service _ _
        (login_with-Muted req.uid _ w.service rsp e) (record { writer = e; pushed = refl })

  handle_request-Muted :
      (req : GatewayRequest) (w : Lobby)
      → w.service.push_writer ≡ none
      → Keeps w.service (handle_request req w)
  unfolding handle_request erase_online
  handle_request-Muted req w e =
      let l = w.service in
      let same : Muted l l = record { writer = e; pushed = refl } in
      let changed : (l' : Service)
          → l'.push_writer ≡ l.push_writer
          → l'.pushed ≡ l.pushed
          → Muted l l' =
        λ l' q q'. record { writer = q ∙ e; pushed = q' } in
      either (req.cmd_id == 1001) l _ _ (handle_login-Muted req w _ e) (
        either (req.cmd_id == 1002) l _ _ (changed (erase_online req.uid l) refl refl) (
          either (req.cmd_id == 1003) l _ _
            (create_role-Muted req (pb.parse_create_role_req req.payload) w _ e)
            (either (req.cmd_id == 1005) l _ _
              (match_game-Muted req (pb.parse_match_game_req req.payload) w _ e)
              (either (req.cmd_id == 1006) l _ _
                (changed (record l { match_queue = remove_queued req.uid l.match_queue }) refl refl)
                (either (req.cmd_id == 1008) l _ _ same
                  (either (req.cmd_id == 1009) l _ _ same same))))))

  -- Where there is no writer, no calls but Subscribe push anything.
  pub answer_all-Muted :
      (cs : List Call) (w : Lobby)
      → w.service.push_writer ≡ none
      → Muted w.service (answer_all cs w).service
  unfolding answer_all
  answer_all-Muted [] w e = record { writer = e; pushed = refl }
  answer_all-Muted (request req ∷ cs) w e =
      let m = handle_request-Muted req w e in
      let m' = answer_all-Muted cs (handle_request req w).0 m.writer in
      record { writer = m'.writer; pushed = m'.pushed ∙ m.pushed }
  answer_all-Muted (disconnect req ∷ cs) w e =
      let m =
        answer_all-Muted cs (record w { service = client_disconnect req w.service })
          (unfold client_disconnect erase_online in e) in
      record {
        writer = m.writer;
        pushed = m.pushed ∙ (unfold client_disconnect erase_online in refl);
      }
