-- ===== src/Login/Tokens.antt =====
-- The tokens of login_server/main.go: what a login leaves in Redis, and what the gateway makes of
-- it in gateway/network/ws_server.go.
use ki_han_server_distribute.Base.{
  ℕ, ◌<◌, ◌^◌, true, false, Option, none, some, List, [], ◌∷◌, ◌++◌, ◌≡◌, refl, ap, ◌∙◌, arith,
  ◌==◌, nat_eq,
}
use ki_han_server_distribute.Base.Map.{Map, find, set, find-set, find-set_self}
use ki_han_server_distribute.Base.Bytes.{Bytes, bytes_eq, bytes_beq_iff, codes, to_string}
use ki_han_server_distribute.Gateway.{Gateway, new_session, draw_id}
use ki_han_server_distribute.Traffic.{Chances, joined, serve_http}
use ki_han_server_distribute.Traffic.Uids.{welcomed, welcomed-session, serve_http_joined}
use ki_han_server_distribute.Login.{
  Users, Sha256, User, Login, Luck, RedisUp, err_ok, token_key, auth_key, save_token_to_redis,
  get_uid_by_token, hash_password, generate_secure_token, with_token, kick_msg, login_user, login,
}

-- A token's own key is not the key under which a uid's last token stands.
auth_key-token_key : (token : Bytes) (uid : ℕ) → (token_key uid == auth_key token) ≡ false
unfolding token_key auth_key
auth_key-token_key token uid = refl

find-set_other :
    (k j v : Bytes) (m : Map Bytes Bytes) → (k == j) ≡ false → find j (set k v m) ≡ find j m
find-set_other k j v m e = find-set k j v m ∙ rw e refl

save_token_to_redis_kept :
    (up : RedisUp) (uid : ℕ) (token old : Bytes) (redis : Map Bytes Bytes)
    → (auth_key token == auth_key old) ≡ false
    → find (auth_key old) (save_token_to_redis up uid token redis).0 ≡ find (auth_key old) redis
unfolding save_token_to_redis
save_token_to_redis_kept up uid token old redis other =
    let redis' = set (token_key uid) token redis in
    let one : find (auth_key old) redis' ≡ find (auth_key old) redis =
      find-set_other (token_key uid) (auth_key old) token redis (auth_key-token_key old uid) in
    let two : find (auth_key old) (set (auth_key token) (to_string uid) redis')
        ≡ find (auth_key old) redis =
      find-set_other (auth_key token) (auth_key old) (to_string uid) redis' other ∙ one in
    ground arith

auth_key-inj : (token old : Bytes) → (auth_key token == auth_key old) ≡ (token == old)
unfolding auth_key
auth_key-inj token old = refl

module _ ⦃us : Users⦄ ⦃sha : Sha256⦄ where
  login_user-token :
      (luck : Luck) (password ip old : Bytes) (found : Option User) (l : Login)
      → ((u : User) → found ≡ some u → (generate_secure_token u.uid luck.nonce == old) ≡ false)
      → get_uid_by_token (login_user luck password ip found l).0.redis old
        ≡ get_uid_by_token l.redis old
  unfolding login_user with_token get_uid_by_token
  login_user-token luck password ip old none l fresh = refl
  login_user-token luck password ip old (some u) l fresh =
      let token = generate_secure_token u.uid luck.nonce in
      let kept =
        save_token_to_redis_kept luck.up u.uid token old l.redis
          (auth_key-inj token old ∙ fresh u refl) in
      ground (arith, kept)

  -- A login changes what no other token than its own stands for: the tokens of earlier logins of
  -- the same account stay valid.
  pub login-token :
      (luck : Luck) (username password ip old : Bytes) (l : Login)
      → ((u : User)
          → us.find_user username l.table ≡ some u
          → (generate_secure_token u.uid luck.nonce == old) ≡ false)
      → get_uid_by_token (login luck username password ip l).0.redis old
        ≡ get_uid_by_token l.redis old
  unfolding login
  login-token luck username password ip old l fresh =
      login_user-token luck password ip old (us.find_user username l.table) l fresh

  -- What a login answers where the user is found, the password is right and Redis takes the token.
  login_lem :
      (luck : Luck) (username password ip : Bytes) (u : User) (l : Login)
      → us.find_user username l.table ≡ some u
      → (u.uid == 0) ≡ false
      → hash_password password u.salt ≡ u.password
      → luck.up.first ≡ true
      → luck.up.second ≡ true
      → let token = generate_secure_token u.uid luck.nonce in
        let answer = login luck username password ip l in
        (answer.1
          ≡ record { code = err_ok; token = some token; kick = some (kick_msg u.uid token) })
        × (get_uid_by_token answer.0.redis token ≡ some (to_string u.uid))
  unfolding login login_user with_token save_token_to_redis get_uid_by_token
  login_lem luck username password ip u l found nonzero right up1 up2 =
      let token = generate_secure_token u.uid luck.nonce in
      let same : (hash_password password u.salt == u.password) ≡ true =
        (bytes_beq_iff (hash_password password u.salt) u.password).1 right in
      rw (found, nonzero, same, up1, up2)
        (
          refl,
          find-set_self (auth_key token) (to_string u.uid) (set (token_key u.uid) token l.redis),
        )

  -- From the login to the game: a user with a uid of 32 bits who gives the right password, while
  -- Redis takes the token and the token is not empty, is answered with a token with which the
  -- gateway, when it draws an id, upgrades the connection and sends its first message, makes a
  -- session of that uid, found under the drawn id; and the text published on
  -- `gateway:kick` is {"uid": "U", "new_token": "T"} with the uid, in quotes, and the same token.
  pub login-serve_http :
      (luck : Luck) (username password ip : Bytes) (u : User) (l : Login)
      → us.find_user username l.table ≡ some u
      → (u.uid == 0) ≡ false
      → u.uid < 2 ^ 32
      → hash_password password u.salt ≡ u.password
      → luck.up.first ≡ true
      → luck.up.second ≡ true
      → (generate_secure_token u.uid luck.nonce ≡ [] → ⊥)
      → (c : Chances) (id key : ℕ) (rest : List ℕ) (g : Gateway)
      → draw_id c.draws g.sessions ≡ some (id, key ∷ rest)
      → c.upgrades ≡ true
      → c.writes ≡ true
      → let token = generate_secure_token u.uid luck.nonce in
        let (l', reply) = login luck username password ip l in
        let g' = welcomed id key token u.uid g in
        (reply.code ≡ err_ok)
        × (reply.token ≡ some token)
        × (reply.kick
            ≡ some (
                codes "{\"uid\": \""
                ++ (to_string u.uid ++ (codes "\", \"new_token\": \"" ++ (token ++ codes "\"}")))))
        × (serve_http (λ k. find k l'.redis) c token g ≡ some (g', joined g.allocated))
        × (find id g'.sessions ≡ some g.allocated)
        × (g'.objects g.allocated ≡ new_session id key token u.uid)
  unfolding get_uid_by_token auth_key kick_msg
  login-serve_http luck username password ip u l found nonzero uid32 right up1 up2 some_token c id
        key rest g drawn upgrades writes =
      let token = generate_secure_token u.uid luck.nonce in
      let l' = (login luck username password ip l).0 in
      let (answer, known) = login_lem luck username password ip u l found nonzero right up1 up2 in
      let (led, object) = welcomed-session id key token u.uid g in
      (
        ap (λ r. r.code) answer,
        ap (λ r. r.token) answer,
        ap (λ r. r.kick) answer,
        serve_http_joined (λ k. find k l'.redis) c token u.uid id key rest g uid32 known some_token
            drawn upgrades writes,
        led,
        object,
      )
