-- ===== src/Proto.antt =====
-- The messages of game_server/proto/*.proto, and the generated code that turns them into bytes.
-- `uint32` is a number below 2 ^ 32, `int32` an integer, `string` and `bytes` a list of bytes, an
-- absent submessage `none`, a `map` field an unordered map. protoc generates ParseFromString and
-- SerializeToString, so they are the fields of `Codec`, which every handler takes as an instance.
use ki_han_server_distribute.Base.{ℕ, ℤ, Bool, Option}
use ki_han_server_distribute.Base.Map.{Map}
use ki_han_server_distribute.Base.Bytes.{Bytes}

pub record GatewayRequest : Type 0 where
  pub conn_id : ℕ
  pub uid : ℕ
  pub cmd_id : ℕ
  pub payload : Bytes

pub record GatewayResponse : Type 0 where
  pub conn_id : ℕ
  pub cmd_id : ℕ
  pub payload : Bytes
  pub kick_client : Bool

pub record CreateRoomReq : Type 0 where
  pub player_list_json : Bytes

pub record CreateRoomRsp : Type 0 where
  pub err_code : ℤ
  pub room_id : ℤ

pub record EnterRoomReq : Type 0 where
  pub room_id : ℤ

pub record RoomSnapshot : Type 0 where
  pub room_id : ℤ
  pub player_list_json : Bytes

pub record EnterRoomRsp : Type 0 where
  pub err_code : ℤ
  pub snapshot : Option RoomSnapshot
  pub my_game_id : ℤ

pub record PlayerReadyReq : Type 0 where
  pub room_id : ℤ

pub record PlayerReadyRsp : Type 0 where
  pub err_code : ℤ

pub record GameStartNtf : Type 0 where
  pub room_id : ℤ

pub record RoomFrame : Type 0 where
  pub frame_id : ℕ
  pub player_count : ℕ
  pub raw_inputs : Map ℤ Bytes

pub record RoomFrameUpdate : Type 0 where
  pub frame : RoomFrame

pub record GameOverReq : Type 0 where
  pub room_id : ℤ
  pub winner_uid : ℕ
  pub p1_hp : ℤ
  pub p2_hp : ℤ

pub record GameOverRsp : Type 0 where
  pub err_code : ℤ

pub record GameOverNtf : Type 0 where
  pub room_id : ℤ
  pub winner_uid : ℕ

-- A parser answers `none` where ParseFromString returns false.
pub record Codec : Type 0 where
  pub parse_enter_room_req : Bytes → Option EnterRoomReq
  pub parse_player_ready_req : Bytes → Option PlayerReadyReq
  pub parse_game_over_req : Bytes → Option GameOverReq
  pub serialize_enter_room_rsp : EnterRoomRsp → Bytes
  pub serialize_player_ready_rsp : PlayerReadyRsp → Bytes
  pub serialize_game_over_rsp : GameOverRsp → Bytes
  pub serialize_game_start_ntf : GameStartNtf → Bytes
  pub serialize_room_frame_update : RoomFrameUpdate → Bytes
  pub serialize_game_over_ntf : GameOverNtf → Bytes
