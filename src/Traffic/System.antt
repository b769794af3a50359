-- ===== src/Traffic/System.antt =====
-- The gateway in front of the lobby: gateway/rpc/client.go with the handlers of
-- lobby_server/src/lobby_service.cpp behind it.
use ki_han_server_distribute.Base.{
  ℕ, true, false, [], ◌∷◌, ◌++◌, ◌≡◌, refl, ◌∙◌, ◌==◌, nat_eq, ==_refl, elem,
}
use ki_han_server_distribute.LobbyProto.{LobbyCodec}
use ki_han_server_distribute.Json.{Json}
use ki_han_server_distribute.Db.{Database}
use ki_han_server_distribute.Lobby.{
  Lobby, GameStub, handle_request, client_disconnect, init_service, subscribe_begin, subscribe_end,
  in_queue,
}
use ki_han_server_distribute.Lobby.Online.{
  LobbyInv, init_service-LobbyInv, handle_request-LobbyInv, client_disconnect-LobbyInv,
  client_disconnect_found,
}
use ki_han_server_distribute.Gateway.{Gateway, disconnect_req, close}
use ki_han_server_distribute.Gateway.Closed.{close-objects, close-notices}
use ki_han_server_distribute.Traffic.{Backend}
use ki_han_server_distribute.Traffic.Reach.{Reach, Kept, Reach-kept}

module _ ⦃pb : LobbyCodec⦄ ⦃js : Json⦄ ⦃db : Database⦄ ⦃stub : GameStub⦄ where
  -- The push stream comes and goes besides the requests.
  pub data Subscribes (w : Lobby) : Lobby → Type 0 where
    begins : (writer : ℕ) → Subscribes w (record w { service = subscribe_begin writer w.service })
    ends : Subscribes w (record w { service = subscribe_end w.service })

  abbrev pub lobby_backend : Backend
  lobby_backend = record {
    Server = Lobby;
    handle_request = λ w req. handle_request req w;
    client_disconnect = λ w req. record w { service = client_disconnect req w.service };
    starts = λ w. w.service ≡ init_service;
    moves = Subscribes;
  }

  lobby_moves_keep : (w w' : Lobby) → Subscribes w w' → LobbyInv w.service → LobbyInv w'.service
  unfolding subscribe_begin subscribe_end
  lobby_moves_keep w w' (begins writer) v = record { once = v.once; waiting = v.waiting }
  lobby_moves_keep w w' ends v = record { once = v.once; waiting = v.waiting }

  lobby_backend-Kept : Kept ⦃be = lobby_backend⦄ λ w. LobbyInv w.service
  lobby_backend-Kept = record {
    starts = λ w e. rw e init_service-LobbyInv;
    requests = λ w req v. handle_request-LobbyInv req w v;
    disconnects = λ w req v. client_disconnect-LobbyInv req w.service v;
    moves = lobby_moves_keep;
  }

  -- Behind the gateway, from a lobby with nobody online, whatever the clients send and in whatever
  -- order the loops run: every online player is counted once and at most one player waits in the
  -- match queue.
  pub Reach-LobbyInv :
      {w : Lobby} {g : Gateway} → Reach ⦃be = lobby_backend⦄ w g → LobbyInv w.service
  Reach-LobbyInv r = Reach-kept ⦃be = lobby_backend⦄ lobby_backend-Kept r

  -- In the running system, when one of two connected sessions of a uid is closed, as a kick does
  -- with the older one, the other is not changed, but the lobby is told, and what it is told takes
  -- their uid out of the online players and out of the match queue.
  pub close-logs_out :
      {w : Lobby} {g : Gateway}
      → Reach ⦃be = lobby_backend⦄ w g
      → (p q : ℕ) → (p == q) ≡ false
      → (g.objects p).connected ≡ true
      → (g.objects q).connected ≡ true
      → (g.objects p).uid ≡ (g.objects q).uid
      → let req = disconnect_req (g.objects p) in
        let l = client_disconnect req w.service in
        ((close p g).notices ≡ g.notices ++ req ∷ [])
        × ((close p g).objects q ≡ g.objects q)
        × (elem (g.objects q).uid l.online_players ≡ false)
        × (in_queue (g.objects q).uid l.match_queue ≡ false)
  unfolding disconnect_req
  close-logs_out {w} {g} r p q other on on' same =
      let told =
        client_disconnect_found (disconnect_req (g.objects p)) (g.objects q).uid w.service
          (Reach-LobbyInv r) in
      let hit : ((g.objects p).uid == (g.objects q).uid) ≡ true =
        rw same (==_refl (g.objects q).uid) in
      (
        close-notices p g on,
        close-objects p q g ∙ rw other refl,
        told.0 ∙ rw hit refl,
        told.1 ∙ rw hit refl,
      )
