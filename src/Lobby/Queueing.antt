-- ===== src/Lobby/Queueing.antt =====
-- A player who asks twice for a match, and the gateway's push stream, in lobby_service.cpp.
use ki_han_server_distribute.Base.{ℕ, none, some, [], ◌∷◌, ◌≡◌, refl, arith, nat_eq, nat_beq_iff}
use ki_han_server_distribute.Base.Bytes.{Bytes}
use ki_han_server_distribute.Proto.{GatewayRequest, GatewayResponse}
use ki_han_server_distribute.LobbyProto.{LobbyCodec, MatchGameReq}
use ki_han_server_distribute.Json.{Json}
use ki_han_server_distribute.Db.{Database}
use ki_han_server_distribute.Lobby.{
  Service, MatchPlayer, Lobby, GameStub, enqueue, in_queue, take_pair, push_to_gateway, push_on,
  subscribe_begin, subscribe_end, handle_match_game, match_game_for, match_with, matched, answer,
  lobby_err_ok,
}

pair_alone :
    (p new : MatchPlayer) → p.uid ≡ new.uid → take_pair (enqueue new (p ∷ [])) ≡ (none, p ∷ [])
unfolding take_pair enqueue in_queue
pair_alone p new e = ground (arith, nat_beq_iff p.uid new.uid)

module _ ⦃pb : LobbyCodec⦄ ⦃js : Json⦄ ⦃db : Database⦄ ⦃stub : GameStub⦄ where
  match_with-again :
      (p new : MatchPlayer) (w : Lobby) (rsp : GatewayResponse)
      → w.service.match_queue ≡ p ∷ []
      → p.uid ≡ new.uid
      → match_with new w rsp ≡ (
        w,
        some (answer rsp 1005 (pb.serialize_match_game_rsp (record { err_code = lobby_err_ok }))),
      )
  unfolding match_with
  match_with-again p new w rsp waiting same =
      let kept : take_pair (enqueue new w.service.match_queue) ≡ (none, w.service.match_queue) =
        rw waiting (pair_alone p new same) in
      rw (kept, matched) refl

  -- A player who waits alone and asks again is answered with OK and changes nothing: no match with
  -- oneself is made, and the entry keeps the connection and character of the first request.
  pub handle_match_game_again :
      (p : MatchPlayer) (req : GatewayRequest) (game : MatchGameReq) (w : Lobby)
      (rsp : GatewayResponse)
      → pb.parse_match_game_req req.payload ≡ some game
      → w.service.match_queue ≡ p ∷ []
      → p.uid ≡ req.uid
      → handle_match_game req w rsp ≡ (
        w,
        some (answer rsp 1005 (pb.serialize_match_game_rsp (record { err_code = lobby_err_ok }))),
      )
  unfolding handle_match_game match_game_for
  handle_match_game_again p req game w rsp parsed waiting same =
      rw (parsed, match_game_for) (match_with-again p _ w rsp waiting same)

-- When a gateway subscribes again and then its old stream ends, the new stream is forgotten too:
-- pushes are dropped.
pub push_lost :
    (w conn_id cmd_id : ℕ) (payload : Bytes) (l : Service)
    → push_to_gateway conn_id cmd_id payload (subscribe_end (subscribe_begin w l))
      ≡ subscribe_end (subscribe_begin w l)
unfolding push_to_gateway push_on subscribe_end
push_lost w conn_id cmd_id payload l = refl
