-- ===== src/Json.antt =====
-- nlohmann::json, which is not part of the repository: its operations that the servers call are the
-- fields of `Json`. `none` is an exception of the library; the `operator[]` of a const object,
-- which the library leaves undefined where the key is absent, counts as throwing there.
use ki_han_server_distribute.Base.{ℕ, ℤ, Bool, Option, List}
use ki_han_server_distribute.Base.Bytes.{Bytes}

pub record Json : Type 1 where
  pub Value : Type 0
  pub parse : Bytes → Option Value
  pub dump : Value → Option Bytes
  -- The values that a range-based `for` visits.
  pub elements : Value → List Value
  -- `v[key]`
  pub index : Value → Bytes → Option Value
  -- `v.value(key, fallback)`, at a string and at an int
  pub value_string : Value → Bytes → Bytes → Option Bytes
  pub value_int : Value → Bytes → ℤ → Option ℤ
  pub is_string : Value → Bool
  pub get_string : Value → Option Bytes
  pub get_uint32 : Value → Option ℕ
  -- `{{"uid", uid}, {"nickname", nickname}, {"character_id", character_id}}`
  pub player_object : ℕ → Bytes → ℤ → Value
  pub array : List Value → Value
