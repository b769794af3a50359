-- ===== src/Tests/Accounts.antt =====
-- The login server on concrete accounts, its tokens at the gateway, and the lobby behind both.
use ki_han_server_distribute.Base.{
  ℕ, ◌+◌, negsuc, true, false, Option, none, some, [], ◌∷◌, ◌++◌, ◌≡◌, refl, subst, ◌==◌, nat_eq,
  int_eq, arith, elem,
}
use ki_han_server_distribute.Base.Map.{find, set}
use ki_han_server_distribute.Base.Bytes.{Bytes, codes, bytes_eq, to_string}
use ki_han_server_distribute.Gateway.{
  Gateway, new_session, new_gateway, insert_session, draw_id, close, disconnect_req, assign, emit,
}
use ki_han_server_distribute.Lobby.{
  Lobby, GameStub, init_service, client_disconnect, in_queue, subscribe_begin, subscribe_end,
}
use ki_han_server_distribute.Lobby.Subscribing.{
  Waits, Second, subscribe, seconds, subscribe_returns,
}
use ki_han_server_distribute.Manager.Running.{Turn}
use ki_han_server_distribute.Traffic.{Chances, joined, serve_http}
use ki_han_server_distribute.Traffic.Uids.{welcomed, serve_http_joined}
use ki_han_server_distribute.Traffic.Reach.{Reach, start, next, joins}
use ki_han_server_distribute.Traffic.System.{lobby_backend, close-logs_out}
use ki_han_server_distribute.Login.{
  Users, Sha256, get_uid_by_token, User, Login, Luck, err_ok, generate_secure_token, hash_password,
  login,
}
use ki_han_server_distribute.Login.Version.{
  split_dots, compare_version, part, Answers, compare_version_lem,
}
use ki_han_server_distribute.Login.Tokens.{login-serve_http, login-token}
use ki_han_server_distribute.Lobby.Muted.{request, disconnect, answer_all}
use ki_han_server_distribute.Proto.{GatewayRequest}
use ki_han_server_distribute.Tests.{byte_codec, byte_lobby_codec, tree_json, same_name}

-- "1.9" is older than "1.10".
compare_version_test : compare_version (codes "1.9") (codes "1.10") ≡ negsuc 0
unfolding compare_version
compare_version_test = refl

compare_version_lem_example :
    Answers
      (part (split_dots (codes "1.9")))
      (part (split_dots (codes "1.10.0")))
      (compare_version (codes "1.9") (codes "1.10.0"))
compare_version_lem_example = compare_version_lem (codes "1.9") (codes "1.10.0")

-- Everybody is the user 5 with the salt "s" and the password "p"; a digest is the text itself.
instance abbrev plain : Sha256
plain = record { hex_digest = λ s. s }

abbrev user : User
user = record { uid = 5; password = codes "ps"; salt = codes "s" }

instance abbrev one_user : Users
one_user = record {
  Table = ℕ;
  insert_user = λ username password salt email t. some (t + 1);
  last_insert_id = λ t. t;
  find_user = λ username t. some user;
  set_last_login = λ ip uid t. t;
  set_email = λ email uid t. some t;
  set_password = λ password salt uid t. some t;
}

abbrev luck : Luck
luck = record {
  up = record { first = true; second = true };
  get_fails = false;
  salt = codes "s";
  nonce = codes "n";
}

abbrev login_state : Login
login_state = record { table = 0; redis = set (codes "auth:old") (codes "5") [] }

abbrev chances : Chances
chances = record { upgrades = true; writes = true; draws = 7 ∷ 9 ∷ [] }

drawn_lem : draw_id (7 ∷ 9 ∷ []) new_gateway.sessions ≡ some (7, 9 ∷ [])
unfolding draw_id find new_gateway
drawn_lem = refl

token_not_empty : generate_secure_token 5 (codes "n") ≡ [] → ⊥
unfolding generate_secure_token to_string
token_not_empty e = cc

login-serve_http_example :
    let token = generate_secure_token 5 (codes "n") in
    let (l', reply) = login luck (codes "anna") (codes "p") (codes "ip") login_state in
    let g' = welcomed 7 9 token 5 new_gateway in
    (reply.code ≡ err_ok)
    × (reply.token ≡ some token)
    × (reply.kick
        ≡ some (
            codes "{\"uid\": \""
            ++ (to_string 5 ++ (codes "\", \"new_token\": \"" ++ (token ++ codes "\"}")))))
    × (serve_http (λ k. find k l'.redis) chances token new_gateway
        ≡ some (g', joined new_gateway.allocated))
    × (find 7 g'.sessions ≡ some new_gateway.allocated)
    × (g'.objects new_gateway.allocated ≡ new_session 7 9 token 5)
login-serve_http_example =
    login-serve_http luck (codes "anna") (codes "p") (codes "ip") user login_state refl refl
      (omega arith) (unfold hash_password in refl) refl refl token_not_empty chances 7 9 []
      new_gateway drawn_lem refl refl

other_token :
    (u : User)
    → one_user.find_user (codes "anna") 0 ≡ some u
    → (generate_secure_token u.uid (codes "n") == codes "old") ≡ false
other_token u e =
    let same : user ≡ u = cc in
    subst (λ v. (generate_secure_token v.uid (codes "n") == codes "old") ≡ false) same
      (unfold generate_secure_token in unfold to_string in refl)

login-token_example :
    get_uid_by_token
      (login luck (codes "anna") (codes "p") (codes "ip") login_state).0.redis
      (codes "old")
    ≡ get_uid_by_token login_state.redis (codes "old")
login-token_example =
    login-token luck (codes "anna") (codes "p") (codes "ip") (codes "old") login_state other_token

-- A game server that makes no rooms.
instance abbrev closed_game : GameStub
closed_game = record { Server = ℕ; create_room = λ s req. (s, none) }

abbrev new_lobby : Lobby
new_lobby = record {
  service = init_service;
  database = record { session = some 0; db_name = codes "kihan" };
  game = 0;
}

-- Uid 5 joins twice.
abbrev known : Bytes → Option Bytes
known key = some (to_string 5)

abbrev later : Chances
later = record { upgrades = true; writes = true; draws = 8 ∷ 3 ∷ [] }

abbrev first : Gateway
first = welcomed 7 9 (codes "t") 5 new_gateway

abbrev second : Gateway
second = welcomed 8 3 (codes "u") 5 first

first_joins :
    serve_http known chances (codes "t") new_gateway ≡ some (first, joined new_gateway.allocated)
first_joins =
    serve_http_joined known chances (codes "t") 5 7 9 [] new_gateway (omega arith) refl (λ e. cc)
      drawn_lem refl refl

drawn_later : draw_id (8 ∷ 3 ∷ []) first.sessions ≡ some (8, 3 ∷ [])
unfolding draw_id find welcomed insert_session emit set new_gateway assign
drawn_later = refl

second_joins : serve_http known later (codes "u") first ≡ some (second, joined first.allocated)
second_joins =
    serve_http_joined known later (codes "u") 5 8 3 [] first (omega arith) refl (λ e. cc)
      drawn_later refl refl

both_joined : Reach ⦃be = lobby_backend⦄ new_lobby second
both_joined =
    next
      (next (start refl)
        (joins known chances (codes "t") (joined new_gateway.allocated) first_joins))
      (joins known later (codes "u") (joined first.allocated) second_joins)

close-logs_out_example :
    let req = disconnect_req (second.objects 0) in
    let l = client_disconnect req new_lobby.service in
    ((close 0 second).notices ≡ second.notices ++ req ∷ [])
    × ((close 0 second).objects 1 ≡ second.objects 1)
    × (elem (second.objects 1).uid l.online_players ≡ false)
    × (in_queue (second.objects 1).uid l.match_queue ≡ false)
unfolding welcomed insert_session emit set new_gateway assign new_session
close-logs_out_example = close-logs_out both_joined 0 1 refl refl refl refl

-- Two rounds of the loop, in the second of which Stop is called.
abbrev goes_on : Turn
goes_on = record { others = λ m. m; stops = false }

abbrev stopped : Turn
stopped = record { others = λ m. m; stops = true }

-- Another gateway subscribes in the second before the first one leaves.
abbrev overtaken : Second
overtaken = record { running = true; others = subscribe_begin 6; cancelled = false }

abbrev leaves : Second
leaves = record { running = true; others = λ l. l; cancelled = true }

abbrev match_call : GatewayRequest
match_call = record { conn_id = 70; uid = 7; cmd_id = 1005; payload = 1 ∷ [] }

subscribe_returns_example :
    let l' =
      subscribe_end (seconds ((overtaken ∷ []) ++ leaves ∷ []) (subscribe_begin 5 init_service)) in
    (subscribe (overtaken ∷ []) 5 init_service ≡ none)
    × (subscribe ((overtaken ∷ []) ++ (leaves ∷ [])) 5 init_service ≡ some l')
    × ((answer_all
          (request match_call ∷ disconnect match_call ∷ [])
          (record { service = l'; database = new_lobby.database; game = 0 })).service.pushed
        ≡ l'.pushed)
unfolding Waits
subscribe_returns_example =
    subscribe_returns (overtaken ∷ []) [] leaves 5 init_service
      (request match_call ∷ disconnect match_call ∷ []) new_lobby.database 0 (refl, refl, tt) refl
      refl
