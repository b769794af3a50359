-- ===== src/Lobby/Login.antt =====
-- `HandleLogin` in lobby_service.cpp.
use ki_han_server_distribute.Base.{
  ℕ, true, [], ◌∷◌, ◌≢◌, ◌↔◌, ◌⊎◌, refl, ap, sym, ◌∙◌, ◌||◌, ◌&&◌, Option, none, some, ◌≡◌, arith,
  nat_eq, nat_beq_iff, ◌==◌, elem, elem-snoc, Bool-cases, inl, inr, is_some,
}
use ki_han_server_distribute.Base.Bytes.{Bytes}
use ki_han_server_distribute.Proto.{GatewayRequest, GatewayResponse}
use ki_han_server_distribute.LobbyProto.{LobbyCodec}
use ki_han_server_distribute.Json.{Json}
use ki_han_server_distribute.Db.{Database, PlayerData, get_player_data}
use ki_han_server_distribute.Lobby.{
  Service, Lobby, GameStub, insert_online, is_empty, registered, login_with, of_service,
  handle_login,
}

elem-insert_online :
    (uid v : ℕ) (l : Service)
    → elem v (insert_online uid l).online_players ≡ (elem v l.online_players || uid == v)
unfolding insert_online
elem-insert_online uid v l = elim (Bool-cases (elem uid l.online_players)) [
  | inl old ↦ rw old (ground (arith, nat_beq_iff uid v))
  | inr new ↦ rw (new, elem-snoc v uid l.online_players) (ground (arith, nat_beq_iff uid v))
]

-- The database has a record, with a nickname that is not empty.
abbrev pub Named : Option PlayerData → Type 0
Named o = (d : PlayerData) × (o ≡ some d) × (d.nickname ≢ [])

is_empty_iff : (n : Bytes) → (is_empty n ≡ true) ↔ (n ≡ [])
unfolding is_empty
is_empty_iff [] = ground arith
is_empty_iff (b ∷ bs) = ground arith

registered_some : (d : PlayerData) → (is_some (registered (some d)) ≡ true) ↔ (d.nickname ≢ [])
unfolding registered
registered_some d = elim (Bool-cases (is_empty d.nickname)) [
  | inl e ↦ rw e ((λ f. cc), (λ n. absurd (n ((is_empty_iff d.nickname).0 e))))
  | inr e ↦ rw e ((λ f empty. let h = (is_empty_iff d.nickname).1 empty in cc), (λ n. refl))
]

registered_iff : (o : Option PlayerData) → (is_some (registered o) ≡ true) ↔ Named o
registered_iff none = ((λ e. absurd (unfold registered in cc)), (λ (d, e, n). cc))
registered_iff (some d) = (
  (λ e. (d, refl, (registered_some d).0 e)),
  (λ (d', e, n).
      (registered_some d).1
        (λ empty. let same : d ≡ d' = cc in n (sym (ap (λ x. x.nickname) same) ∙ empty))),
)

module _ ⦃pb : LobbyCodec⦄ ⦃js : Json⦄ ⦃db : Database⦄ ⦃stub : GameStub⦄ where
  login_with_online :
      (uid v : ℕ) (o : Option PlayerData) (l : Service) (rsp : GatewayResponse)
      → elem v (login_with uid o (l, rsp)).0.online_players
        ≡ (elem v l.online_players || (uid == v && is_some o))
  unfolding login_with
  login_with_online uid v none l rsp = ground arith
  login_with_online uid v (some d) l rsp =
      unfold login_with in rw (elem-insert_online uid v l) (ground arith)

  handle_login-elem :
      (req : GatewayRequest) (v : ℕ) (w : Lobby) (rsp : GatewayResponse)
      → pb.parse_login_req req.payload ≡ true
      → elem v (handle_login req w rsp).0.service.online_players ≡ (
          elem v w.service.online_players
          || (req.uid == v && is_some (registered (get_player_data w.database req.uid))))
  unfolding handle_login of_service
  handle_login-elem req v w rsp parsed =
      rw parsed (
        login_with_online req.uid v (registered (get_player_data w.database req.uid)) w.service rsp)

  -- After a login request that parses, the players online are those from before, and the one who
  -- asked if the database has a record of that player with a nickname that is not empty.
  pub handle_login_online :
      (req : GatewayRequest) (v : ℕ) (w : Lobby) (rsp : GatewayResponse)
      → pb.parse_login_req req.payload ≡ true
      → (elem v (handle_login req w rsp).0.service.online_players ≡ true) ↔ (
          (elem v w.service.online_players ≡ true)
          ⊎ (req.uid ≡ v) × Named (get_player_data w.database req.uid))
  handle_login_online req v w rsp parsed =
      rw (handle_login-elem req v w rsp parsed)
        (ground (arith, registered_iff (get_player_data w.database req.uid), nat_beq_iff req.uid v))
