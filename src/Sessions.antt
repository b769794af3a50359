-- ===== src/Sessions.antt =====
-- The session table of game_server/src/room_manager.cpp and the stream wrapper of
-- game_server/src/game_service.h. A gRPC stream is a handle, and what is written on any stream is
-- appended to one log, oldest first. A push that fails (Write returns false) is ignored by the
-- code.
pub mod Deliveries
use ki_han_server_distribute.Base.{ℕ, nat_eq, false, Option, none, some, List, [], ◌∷◌, ◌++◌}
use ki_han_server_distribute.Base.Map.{Map, find, set, erase}
use ki_han_server_distribute.Base.Bytes.{Bytes}
use ki_han_server_distribute.Proto.{GatewayResponse}

pub record Session : Type 0 where
  pub stream : ℕ
  pub conn_id : ℕ

pub record Write : Type 0 where
  pub stream : ℕ
  pub response : GatewayResponse

pub record Sessions : Type 0 where
  pub sessions : Map ℕ Session
  pub sent : List Write

-- The response that `GrpcSessionStream::Send` writes.
unfoldable pub response : Session → ℕ → Bytes → Write
response s cmd_id payload = record {
  stream = s.stream;
  response = record {
    conn_id = s.conn_id;
    cmd_id = cmd_id;
    payload = payload;
    kick_client = false;
  };
}

unfoldable pub send : Session → ℕ → Bytes → Sessions → Sessions
unfolding response
send s cmd_id payload n = record n { sent = n.sent ++ response s cmd_id payload ∷ [] }

unfoldable pub register_session : ℕ → Session → Sessions → Sessions
register_session uid s n = record n { sessions = set uid s n.sessions }

unfoldable pub unregister_session : ℕ → Sessions → Sessions
unregister_session uid n = record n { sessions = erase uid n.sessions }

pub send_if : Option Session → ℕ → Bytes → Sessions → Sessions
send_if none cmd_id payload n = n
send_if (some s) cmd_id payload n = send s cmd_id payload n

unfoldable pub send_to_player : ℕ → ℕ → Bytes → Sessions → Sessions
unfolding send_if
send_to_player uid cmd_id payload n = send_if (find uid n.sessions) cmd_id payload n

unfoldable pub send_to_players : List ℕ → ℕ → Bytes → Sessions → Sessions
unfolding send_if
send_to_players [] cmd_id payload n = n
send_to_players (uid ∷ uids) cmd_id payload n =
    send_to_players uids cmd_id payload (send_if (find uid n.sessions) cmd_id payload n)
