-- ===== src/Db.antt =====
-- lobby_server/src/db_manager.h and db_manager.cpp. MySQL and its connector are not part of the
-- repository: a connected session is a value of `Database.Session`, and a call that throws
-- mysqlx::Error is `none`. Statements are passed on as the texts (each run of white space as one
-- space) and the values that the code binds.
pub mod Quotes
use ki_han_server_distribute.Base.{
  ℕ, ◌-◌, ℤ, Bool, true, false, ◌&&◌, Option, none, some, List, [], ◌∷◌, ◌++◌, ltb, leb,
  if◌then◌else◌, ◌==◌, nat_eq, length, take, drop, head?,
}
use ki_han_server_distribute.Base.Bytes.{Bytes, codes, to_string}

pub data Param : Type 0 where
  text : Bytes → Param
  number : ℕ → Param

pub record Database : Type 1 where
  pub Session : Type 0
  pub Value : Type 0
  pub connect : Bytes → ℤ → Bytes → Bytes → Option Session
  -- `session.sql(statement).bind(…).execute()`
  pub execute : Bytes → List Param → Session → Option Session
  -- The first row of `table.select(…).where("uid = :uid")` in a schema: its nickname and data.
  pub select_player : Bytes → Param → Session → Option (Option (Value × Value))
  pub count_players : Bytes → Param → Session → Option ℕ
  pub is_null : Value → Bool
  pub is_string : Value → Bool
  -- What `operator<<` writes.
  pub print : Value → Bytes

pub record PlayerData : Type 0 where
  pub uid : ℕ
  pub nickname : Bytes
  pub data_json : Bytes

abbrev pub get_last? : Bytes → Option ℕ
get_last? [] = none
get_last? (b ∷ []) = some b
get_last? (b ∷ c ∷ bs) = get_last? (c ∷ bs)

pub is_quote : Option ℕ → Bool
is_quote none = false
is_quote (some b) = b == b'"'

-- `s.substr(1, s.length() - 2)` where the text is quoted, and the text itself where it is not.
unfoldable pub strip_quotes : Bytes → Bytes
unfolding is_quote
strip_quotes s =
    if leb 2 (length s) && (is_quote (head? s) && is_quote (get_last? s))
    then take (length s - 2) (drop 1 s)
    else s

create_table : Bytes
create_table =
    codes
      "CREATE TABLE IF NOT EXISTS kihan_game_players (uid VARCHAR(64) PRIMARY KEY, nickname VARCHAR(64) NOT NULL UNIQUE, create_time DATETIME DEFAULT CURRENT_TIMESTAMP, data JSON) ENGINE=InnoDB DEFAULT CHARSET=utf8mb4;"

insert_player : Bytes
insert_player =
    codes
      "INSERT INTO kihan_game_players (uid, nickname, data) VALUES (?, ?, ?) ON DUPLICATE KEY UPDATE nickname = VALUES(nickname), data = VALUES(data)"

initial_data : Bytes
initial_data = codes "{\"total_battle_count\": 0, \"win_count\": 0}"

update_stats : Bytes
update_stats =
    codes
      "UPDATE kihan_game_players SET data = JSON_SET(IFNULL(data, '{}'), '$.total_battle_count', CAST(IFNULL(JSON_EXTRACT(data, '$.total_battle_count'), 0) AS UNSIGNED) + 1, '$.win_count', CAST(IFNULL(JSON_EXTRACT(data, '$.win_count'), 0) AS UNSIGNED) + ?) WHERE uid = ?;"

module _ ⦃db : Database⦄ where
  -- `none` where `session_` is null.
  pub record DbManager : Type 0 where
    pub session : Option db.Session
    pub db_name : Bytes

  unfoldable pub val_to_string : db.Value → Bytes
  unfolding strip_quotes
  val_to_string v =
      if db.is_null v then [] else if db.is_string v then strip_quotes (db.print v) else db.print v

  -- A statement; where it throws, the session is as it was and the answer is no.
  run : Bytes → List Param → db.Session → db.Session × Bool
  run statement params s = elim (db.execute statement params s) [
    | none ↦ (s, false)
    | some s' ↦ (s', true)
  ]

  run_next : db.Session × Bool → Bytes → List Param → db.Session × Bool
  unfolding run
  run_next (s, false) statement params = (s, false)
  run_next (s, true) statement params = run statement params s

  unfoldable pub connected : DbManager → db.Session × Bool → DbManager × Bool
  connected d (s, done) = (record d { session = some s }, done)

  unfoldable pub init_with : DbManager → Option db.Session → DbManager × Bool
  unfolding run run_next connected create_table
  init_with d none = (d, false)
  init_with d (some s) = connected d (
      run_next
        (run_next (run (codes "CREATE DATABASE IF NOT EXISTS " ++ d.db_name) [] s)
          (codes "USE " ++ d.db_name) [])
        create_table [])

  unfoldable pub init : DbManager → Bytes → ℤ → Bytes → Bytes → Bytes → DbManager × Bool
  unfolding init_with
  init d host port user password dbname =
      init_with (record d { db_name = dbname }) (db.connect host port user password)

  exists_in : Option db.Session → Bytes → ℕ → Bool
  exists_in none name uid = false
  exists_in (some s) name uid = elim (db.count_players name (text (to_string uid)) s) [
    | none ↦ false
    | some n ↦ ltb 0 n
  ]

  unfoldable pub player_exists : DbManager → ℕ → Bool
  unfolding exists_in
  player_exists d uid = exists_in d.session d.db_name uid

  create_in : DbManager → Option db.Session → ℕ → Bytes → DbManager × Bool
  unfolding run run_next connected insert_player initial_data
  create_in d none uid nickname = (d, false)
  create_in d (some s) uid nickname = connected d (
      run_next (run (codes "USE " ++ d.db_name) [] s) insert_player
        (text (to_string uid) ∷ text nickname ∷ text initial_data ∷ []))

  unfoldable pub create_player : DbManager → ℕ → Bytes → DbManager × Bool
  unfolding create_in
  create_player d uid nickname = create_in d d.session uid nickname

  data_of : ℕ → Option (Option (db.Value × db.Value)) → Option PlayerData
  unfolding val_to_string
  data_of uid none = none
  data_of uid (some none) = none
  data_of uid (some (some (nickname, stored))) = some (record {
    uid = uid;
    nickname = val_to_string nickname;
    data_json = if db.is_null stored then codes "{}" else val_to_string stored;
  })

  data_in : Option db.Session → Bytes → ℕ → Option PlayerData
  unfolding data_of
  data_in none name uid = none
  data_in (some s) name uid = data_of uid (db.select_player name (number uid) s)

  unfoldable pub get_player_data : DbManager → ℕ → Option PlayerData
  unfolding data_in
  get_player_data d uid = data_in d.session d.db_name uid

  update_in : DbManager → Option db.Session → ℕ → Bool → DbManager × Bool
  unfolding run run_next connected update_stats
  update_in d none uid is_win = (d, false)
  update_in d (some s) uid is_win = connected d (
      run_next (run (codes "USE " ++ d.db_name) [] s) update_stats
        (number (if is_win then 1 else 0) ∷ number uid ∷ []))

  unfoldable pub update_battle_stats : DbManager → ℕ → Bool → DbManager × Bool
  unfolding update_in
  update_battle_stats d uid is_win = update_in d d.session uid is_win
