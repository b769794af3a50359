-- ===== src/Login.antt =====
-- login_server/main.go: the versions, the tokens in Redis and the handlers of /api. Redis is a map
-- of its keys, an answer for each call of whether it succeeds is an argument. MySQL and SHA-256 are
-- `Users` and `Sha256`; the salt, and the time and the random part of a token, are arguments.
-- A request is one whose JSON was bound; otherwise a handler answers with -1000 and does nothing.
pub mod Version
pub mod Tokens
use ki_han_server_distribute.Login.Version.{compare_version, int_ltb}
use ki_han_server_distribute.Base.{
  ℕ, ◌+◌, ◌-◌, ◌*◌, ◌^◌, ℤ, pos, negsuc, Bool, true, false, ◌&&◌, ◌||◌, Option, none, some, List,
  [], ◌∷◌, ◌++◌, ltb, leb, if◌then◌else◌, ◌==◌, not, nat_eq,
}
use ki_han_server_distribute.Base.Map.{Map, find, set}
use ki_han_server_distribute.Base.Bytes.{Bytes, codes, bytes_eq, to_string}

abbrev pub err_ok : ℤ
err_ok = pos 0

abbrev pub err_api_internal_error : ℤ
err_api_internal_error = negsuc 1000

abbrev pub err_api_bad_password : ℤ
err_api_bad_password = negsuc 1099

abbrev pub err_api_bad_token : ℤ
err_api_bad_token = negsuc 1100

abbrev pub err_api_db_error : ℤ
err_api_db_error = negsuc 1199

abbrev pub err_db_exists : ℤ
err_db_exists = negsuc 1200

abbrev pub err_db_not_exists : ℤ
err_db_not_exists = negsuc 1201

abbrev pub err_invalid_version : ℤ
err_invalid_version = negsuc 1299

-- The code that /api/check_version answers with, and the version that it sends along.
unfoldable pub check_version : Bytes → Bytes → ℤ × Bytes
unfolding compare_version
check_version server version = (
  if int_ltb (compare_version version server) (pos 0) then err_invalid_version else err_ok,
  server,
)

unfoldable pub token_key : ℕ → Bytes
token_key uid = codes "token:" ++ to_string uid

unfoldable pub auth_key : Bytes → Bytes
auth_key token = codes "auth:" ++ token

-- Whether the calls of `Set` succeed.
pub record RedisUp : Type 0 where
  pub first : Bool
  pub second : Bool

unfoldable pub save_token_to_redis : RedisUp → ℕ → Bytes → Map Bytes Bytes → Map Bytes Bytes × Bool
unfolding token_key auth_key
save_token_to_redis up uid token redis =
    let redis' = set (token_key uid) token redis in
    if not up.first
    then (redis, false)
    else if not up.second
    then (redis', false)
    else (set (auth_key token) (to_string uid) redis', true)

-- The uid that a token stands for; `none` where Redis has no such key.
unfoldable pub get_uid_by_token : Map Bytes Bytes → Bytes → Option Bytes
unfolding auth_key
get_uid_by_token redis token = find (auth_key token) redis

pub record Sha256 : Type 0 where
  pub hex_digest : Bytes → Bytes

-- A row of the table `users`.
pub record User : Type 0 where
  pub uid : ℕ
  pub password : Bytes
  pub salt : Bytes

-- The statements on the table `users`; `none` is an error. `find_user` has the uid 0 where there is
-- no row. `last_insert_id` is asked on whichever connection the pool hands out.
pub record Users : Type 1 where
  pub Table : Type 0
  pub insert_user : Bytes → Bytes → Bytes → Bytes → Table → Option Table
  pub last_insert_id : Table → ℕ
  pub find_user : Bytes → Table → Option User
  pub set_last_login : Bytes → ℕ → Table → Table
  pub set_email : Bytes → Bytes → Table → Option Table
  pub set_password : Bytes → Bytes → Bytes → Table → Option Table

-- The answer of a handler: the code, and the token where there is one. `kick` is the
-- text that it published on `gateway:kick`.
pub record Reply : Type 0 where
  pub code : ℤ
  pub token : Option Bytes
  pub kick : Option Bytes

-- `{"uid": "%d", "new_token": "%s"}`
unfoldable pub kick_msg : ℕ → Bytes → Bytes
kick_msg uid token =
    codes "{\"uid\": \""
    ++ (to_string uid ++ (codes "\", \"new_token\": \"" ++ (token ++ codes "\"}")))

abbrev pub failure : ℤ → Reply
failure code = record { code = code; token = none; kick = none }

-- What Redis and the random generator do during a request. `get_fails`: Redis gives an error other
-- than that the key is missing.
pub record Luck : Type 0 where
  pub up : RedisUp
  pub get_fails : Bool
  pub salt : Bytes
  pub nonce : Bytes

module _ ⦃us : Users⦄ ⦃sha : Sha256⦄ where
  pub record Login : Type 0 where
    pub table : us.Table
    pub redis : Map Bytes Bytes

  unfoldable pub hash_password : Bytes → Bytes → Bytes
  hash_password client_md5 salt = sha.hex_digest (client_md5 ++ salt)

  -- `nonce` is the time and the random part, as they are printed.
  unfoldable pub generate_secure_token : ℕ → Bytes → Bytes
  generate_secure_token uid nonce = sha.hex_digest (to_string uid ++ (b'-' ∷ nonce))

  unfoldable pub with_token : Reply → Bytes → us.Table → Map Bytes Bytes × Bool → Login × Reply
  with_token reply token table (redis, saved) = (
    record { table = table; redis = redis },
    (if saved then record reply { token = some token } else failure err_api_internal_error),
  )

  unfoldable pub registered_with : Luck → Option us.Table → Login → Login × Reply
  unfolding with_token save_token_to_redis generate_secure_token
  registered_with luck none l = (l, failure err_db_exists)
  registered_with luck (some table) l =
      let uid = us.last_insert_id table in
      let token = generate_secure_token uid luck.nonce in
      with_token (record { code = err_ok; token = none; kick = none }) token table
        (save_token_to_redis luck.up uid token l.redis)

  -- `/api/register`
  unfoldable pub register : Luck → Bytes → Bytes → Bytes → Login → Login × Reply
  unfolding registered_with hash_password
  register luck username password email l =
      registered_with luck
        (us.insert_user username (hash_password password luck.salt) luck.salt email l.table) l

  unfoldable pub login_user : Luck → Bytes → Bytes → Option User → Login → Login × Reply
  unfolding with_token save_token_to_redis generate_secure_token hash_password kick_msg
  login_user luck password ip none l = (l, failure err_db_not_exists)
  login_user luck password ip (some u) l =
      let token = generate_secure_token u.uid luck.nonce in
      if u.uid == 0
      then (l, failure err_db_not_exists)
      else if not (hash_password password u.salt == u.password)
      then (l, failure err_api_bad_password)
      else with_token (record { code = err_ok; token = none; kick = some (kick_msg u.uid token) })
          token (us.set_last_login ip u.uid l.table)
          (save_token_to_redis luck.up u.uid token l.redis)

  -- `/api/login`
  unfoldable pub login : Luck → Bytes → Bytes → Bytes → Login → Login × Reply
  unfolding login_user
  login luck username password ip l = login_user luck password ip (us.find_user username l.table) l

  -- The uid that the handlers below go on with: only a missing key ends them, any other error
  -- leaves the text empty.
  unfoldable pub uid_text : Luck → Option Bytes → Option Bytes
  uid_text luck found = if luck.get_fails then some [] else found

  unfoldable pub updated : Login → Option us.Table → Login × Reply
  updated l none = (l, failure err_api_db_error)
  updated l (some table) = (record l { table = table }, failure err_ok)

  unfoldable pub email_of : Bytes → Option Bytes → Login → Login × Reply
  unfolding updated
  email_of email none l = (l, failure err_api_bad_token)
  email_of email (some uid) l = updated l (us.set_email email uid l.table)

  -- `/api/update_email`
  unfoldable pub update_email : Luck → Bytes → Bytes → Login → Login × Reply
  unfolding email_of uid_text get_uid_by_token
  update_email luck email token l =
      email_of email (uid_text luck (get_uid_by_token l.redis token)) l

  unfoldable pub password_of : Luck → Bytes → Option Bytes → Login → Login × Reply
  unfolding updated hash_password
  password_of luck password none l = (l, failure err_api_bad_token)
  password_of luck password (some uid) l =
      updated l (us.set_password (hash_password password luck.salt) luck.salt uid l.table)

  -- `/api/update_password`
  unfoldable pub update_password : Luck → Bytes → Bytes → Login → Login × Reply
  unfolding password_of uid_text get_uid_by_token
  update_password luck password token l =
      password_of luck password (uid_text luck (get_uid_by_token l.redis token)) l
