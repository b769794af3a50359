-- ===== src/LobbyProto.antt =====
-- The messages of lobby_server/proto/client_lobby.proto, and the generated code for them as the
-- fields of `LobbyCodec`. LoginReq has no fields, so only the success of its parser is seen.
use ki_han_server_distribute.Base.{ℕ, ℤ, Bool, Option}
use ki_han_server_distribute.Base.Bytes.{Bytes}

pub record PlayerInfo : Type 0 where
  pub uid : ℕ
  pub nickname : Bytes
  pub data_json : Bytes

pub record LoginRsp : Type 0 where
  pub err_code : ℤ
  pub player : Option PlayerInfo

pub record LogoutRsp : Type 0 where
  pub err_code : ℤ

pub record CreateRoleReq : Type 0 where
  pub nickname : Bytes

pub record CreateRoleRsp : Type 0 where
  pub err_code : ℤ

pub record MatchGameReq : Type 0 where
  pub character_id : ℤ

pub record MatchGameRsp : Type 0 where
  pub err_code : ℤ

pub record MatchStopRsp : Type 0 where
  pub err_code : ℤ
  pub success : Bool

pub record MatchGameNtf : Type 0 where
  pub err_code : ℤ
  pub room_id : Bytes
  pub position : ℤ
  pub room_snapshot_json : Bytes

pub record GetPlayerDataRsp : Type 0 where
  pub err_code : ℤ
  pub player : Option PlayerInfo

pub record GetOnlineCountRsp : Type 0 where
  pub err_code : ℤ
  pub online_count : ℤ

pub record LobbyCodec : Type 0 where
  pub parse_login_req : Bytes → Bool
  pub parse_create_role_req : Bytes → Option CreateRoleReq
  pub parse_match_game_req : Bytes → Option MatchGameReq
  pub serialize_login_rsp : LoginRsp → Bytes
  pub serialize_logout_rsp : LogoutRsp → Bytes
  pub serialize_create_role_rsp : CreateRoleRsp → Bytes
  pub serialize_match_game_rsp : MatchGameRsp → Bytes
  pub serialize_match_stop_rsp : MatchStopRsp → Bytes
  pub serialize_match_game_ntf : MatchGameNtf → Bytes
  pub serialize_get_player_data_rsp : GetPlayerDataRsp → Bytes
  pub serialize_get_online_count_rsp : GetOnlineCountRsp → Bytes
