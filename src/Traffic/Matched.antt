-- ===== src/Traffic/Matched.antt =====
-- The push loop of gateway/main.go behind the lobby: a match on its way to the two clients.
use ki_han_server_distribute.Base.{
  ℕ, ◌<◌, ℤ, pos, Option, none, some, List, [], ◌∷◌, ◌++◌, ◌≡◌, refl, arith, length, nat_eq,
}
use ki_han_server_distribute.Base.Map.{find}
use ki_han_server_distribute.Base.Bytes.{Bytes}
use ki_han_server_distribute.Proto.{GatewayRequest, GatewayResponse}
use ki_han_server_distribute.LobbyProto.{LobbyCodec, MatchGameReq}
use ki_han_server_distribute.Json.{Json}
use ki_han_server_distribute.Db.{Database}
use ki_han_server_distribute.Lobby.{MatchPlayer, handle_match_game, pushed_response}
use ki_han_server_distribute.Lobby.Matching.{
  JsonLaws, Ready, MatchLobby, entry_of, match_notice, handle_match_game_matched, game_server,
}
use ki_han_server_distribute.Gateway.{Gateway, Effect, emit, get_session}
use ki_han_server_distribute.Gateway.Sending.{client_reads}
use ki_han_server_distribute.Traffic.Relay.{Plain, IsOpen, deliver-Plain}
use ki_han_server_distribute.Traffic.{on_push, push_found}

-- The loop over what one push stream receives.
unfoldable pub on_pushes : List GatewayResponse → Gateway → Option Gateway
on_pushes [] g = some g
on_pushes (r ∷ rs) g = elim (on_push r g) [ none ↦ none | some g' ↦ on_pushes rs g' ]

-- A plain push for a session that is found and open.
on_push-Plain :
    (p : ℕ) (r : GatewayResponse) (g : Gateway)
    → find r.conn_id g.sessions ≡ some p
    → IsOpen p g
    → Plain r
    → (e : Effect) × (on_push r g ≡ some (emit e g))
      × (client_reads p (g.objects p) e ≡ some (r.cmd_id, r.payload))
unfolding on_push push_found get_session
on_push-Plain p r g found open_ plain = rw (found, push_found) (deliver-Plain p 0 r g open_ plain)

-- Two pushes for two open sessions, which may be one.
on_pushes_both :
    (p q : ℕ) (r s : GatewayResponse) (g : Gateway)
    → find r.conn_id g.sessions ≡ some p
    → find s.conn_id g.sessions ≡ some q
    → IsOpen p g
    → IsOpen q g
    → Plain r
    → Plain s
    → (e : Effect) × (f : Effect) × (on_pushes (r ∷ s ∷ []) g ≡ some (emit f (emit e g)))
      × (client_reads p (g.objects p) e ≡ some (r.cmd_id, r.payload))
      × (client_reads q (g.objects q) f ≡ some (s.cmd_id, s.payload))
unfolding on_pushes emit
on_pushes_both p q r s g fp fq op oq plain plain' =
    let (e, sent, read) = on_push-Plain p r g fp op plain in
    let (f, sent', read') =
      on_push-Plain q s (emit e g) fq (record { on = oq.on; id32 = oq.id32; key32 = oq.key32 })
        plain' in
    (e, f, rw (sent, on_pushes, sent') refl, read, read')

module _ ⦃pb : LobbyCodec⦄ where
  notice-Plain :
      (p : MatchPlayer) (position : ℕ) (room_id : ℤ) (json : Bytes)
      → length (match_notice p position room_id json).payload < 65532
      → Plain (match_notice p position room_id json)
  unfolding pushed_response
  notice-Plain p position room_id json short = record {
    stays = refl;
    command = omega arith;
    short = short;
  }

module _ ⦃pb : LobbyCodec⦄ ⦃js : Json⦄ ⦃db : Database⦄ where
  -- A match from the lobby to the clients' screens. Under the laws of the JSON library, when a
  -- request to match parses and finds one other player waiting, with 32-bit uids, a list that
  -- dumps, a next room id not in use and a subscribed gateway, and both players' connections are
  -- connected sessions of the gateway with ids and keys of 32 bits, and their notices are shorter
  -- than 65532 bytes: the lobby pushes two notices on the subscribed stream, of which the
  -- gateway's push loop makes two writes and no panic; and the one who waited reads from the first
  -- that it sits on position 1, and the other from the second that it sits on position 2, of the
  -- room that the game server has made.
  pub match_notified :
      (p1 : MatchPlayer) (req : GatewayRequest) (game : MatchGameReq) (json : Bytes) (stream : ℕ)
      (w : MatchLobby) (rsp : GatewayResponse) (p q : ℕ) (g : Gateway)
      → JsonLaws
      → Ready p1 req game json stream w
      → find p1.conn_id g.sessions ≡ some p
      → find req.conn_id g.sessions ≡ some q
      → IsOpen p g
      → IsOpen q g
      → let room_id = pos w.game.next_room_id in
        let p2 = entry_of req game w.database in
        let first = match_notice p1 1 room_id json in
        let second = match_notice p2 2 room_id json in
        length first.payload < 65532
        → length second.payload < 65532
        → ((handle_match_game req w rsp).0.service.pushed
            ≡ w.service.pushed ++ (stream, first) ∷ (stream, second) ∷ [])
          × (e : Effect) × (f : Effect) × (on_pushes (first ∷ second ∷ []) g
              ≡ some (emit f (emit e g)))
          × (client_reads p (g.objects p) e ≡ some (1007, first.payload))
          × (client_reads q (g.objects q) f ≡ some (1007, second.payload))
  unfolding entry_of pushed_response
  match_notified p1 req game json stream w rsp p q g laws ready fp fq op oq s1 s2 =
      let room_id = pos w.game.next_room_id in
      let p2 = entry_of req game w.database in
      let (_, _, _, pushed, _) =
        handle_match_game_matched p1 req game json stream w rsp laws ready in
      let (e, f, sent, read, read') =
        on_pushes_both p q (match_notice p1 1 room_id json) (match_notice p2 2 room_id json) g fp fq
          op oq (notice-Plain p1 1 room_id json s1) (notice-Plain p2 2 room_id json s2) in
      (pushed, e, f, sent, read, read')
