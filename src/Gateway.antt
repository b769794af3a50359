-- ===== src/Gateway.antt =====
-- gateway/network/manager.go and session.go: the sessions of the gateway. A *Session is a number,
-- the index of a heap of session objects, since the loops of a connection keep their pointer after
-- the session has left the manager. What goes out is a log of effects, oldest first; a call of
-- the lobby under way in a goroutine of its own stands in `notices`. `none` is a panic, which ends
-- the process. LastHeartbeat is never read and left out.
pub mod Invariant
pub mod Closing
pub mod Closed
pub mod Drawing
pub mod Sending
use ki_han_server_distribute.Base.{
  ℕ, ◌+◌, ◌%◌, ◌^◌, Bool, true, false, ◌&&◌, Option, none, some, List, [], ◌∷◌, ◌++◌, ltb,
  if◌then◌else◌, ◌==◌, not, nat_eq, is_some,
}
use ki_han_server_distribute.Base.Map.{Map, find, set, erase, contains}
use ki_han_server_distribute.Base.Bytes.{Bytes, bytes_eq, put_uint16}
use ki_han_server_distribute.Proto.{GatewayRequest, GatewayResponse}
use ki_han_server_distribute.Packet.{encode_header, length_prefixed, packet_type_raw_udp}

pub record Session : Type 0 where
  pub id : ℕ
  pub key : ℕ
  pub token : Bytes
  pub uid : ℕ
  -- The handle of StreamBattle. GameCancel is set with it; where opening fails it is set alone, and
  -- has nothing to cancel.
  pub game_stream : Option ℕ
  pub udp_addr : Option Bytes
  pub kcp_conn : Option ℕ
  pub connected : Bool

unfoldable pub new_session : ℕ → ℕ → Bytes → ℕ → Session
new_session id key token uid = record {
  id = id;
  key = key;
  token = token;
  uid = uid;
  game_stream = none;
  udp_addr = none;
  kcp_conn = none;
  connected = true;
}

-- The WebSocket of a session is named by the session's pointer. `auth_write` is the first message
-- on it, with the id and the key.
pub data Effect : Type 0 where
  ws_write : ℕ → Bytes → Effect
  kcp_write : ℕ → Bytes → Effect
  udp_write : Bytes → Bytes → Effect
  auth_write : ℕ → ℕ → ℕ → Effect
  ws_close : ℕ → Effect
  kcp_close : ℕ → Effect
  stream_send : ℕ → GatewayRequest → Effect
  stream_cancel : ℕ → Effect

-- SessionManager and the objects that it leads to. `read_ch` is the channel of GlobalKCPConn.
pub record Gateway : Type 0 where
  pub sessions : Map ℕ ℕ
  pub addr_map : Map Bytes ℕ
  pub objects : ℕ → Session
  pub allocated : ℕ
  pub next_stream : ℕ
  pub read_ch : List (Bytes × Bytes)
  pub effects : List Effect
  pub notices : List GatewayRequest

unfoldable pub new_gateway : Gateway
unfolding new_session
new_gateway = record {
  sessions = [];
  addr_map = [];
  objects = λ _. record (new_session 0 0 [] 0) { connected = false };
  allocated = 0;
  next_stream = 0;
  read_ch = [];
  effects = [];
  notices = [];
}

-- The object behind a pointer is changed.
unfoldable pub assign : ℕ → Session → Gateway → Gateway
assign p s g = record g { objects = λ q. if p == q then s else g.objects q }

unfoldable pub emit : Effect → Gateway → Gateway
emit e g = record g { effects = g.effects ++ e ∷ [] }

-- The loop of AddSession over what rand.Uint32 draws: the first id that is not 0 and not in use,
-- and the draws behind it. `none`: these draws were not enough.
unfoldable pub draw_id : List ℕ → Map ℕ ℕ → Option (ℕ × List ℕ)
draw_id [] sessions = none
draw_id (id ∷ draws) sessions =
    if not (id == 0) && not (contains id sessions) then some (id, draws) else draw_id draws sessions

unfoldable pub insert_session : ℕ → ℕ → Bytes → ℕ → Gateway → Gateway × ℕ
unfolding assign new_session
insert_session id key token uid g =
    let p = g.allocated in
    (
      record (assign p (new_session id key token uid) g) {
        sessions = set id p g.sessions;
        allocated = p + 1;
      },
      p,
    )

unfoldable pub draw_key : Option (ℕ × List ℕ) → Option (ℕ × ℕ)
draw_key none = none
draw_key (some (id, [])) = none
draw_key (some (id, key ∷ draws)) = some (id, key)

unfoldable pub insert_drawn : Option (ℕ × ℕ) → Bytes → ℕ → Gateway → Option (Gateway × ℕ)
unfolding insert_session
insert_drawn none token uid g = none
insert_drawn (some (id, key)) token uid g = some (insert_session id key token uid g)

unfoldable pub add_session : List ℕ → Bytes → ℕ → Gateway → Option (Gateway × ℕ)
unfolding draw_id draw_key insert_drawn
add_session draws token uid g = insert_drawn (draw_key (draw_id draws g.sessions)) token uid g

unfoldable pub get_session : Gateway → ℕ → Option ℕ
get_session g id = find id g.sessions

unfoldable pub session_of_id : Gateway → Option ℕ → Option ℕ
unfolding get_session
session_of_id g none = none
session_of_id g (some id) = get_session g id

unfoldable pub get_session_by_addr : Gateway → Bytes → Option ℕ
unfolding session_of_id
get_session_by_addr g addr = session_of_id g (find addr g.addr_map)

unfoldable pub map_udp_addr : ℕ → Bytes → Gateway → Gateway
map_udp_addr id addr g = record g { addr_map = set addr id g.addr_map }

unfoldable pub unmap_addr : Option Bytes → Gateway → Gateway
unmap_addr none g = g
unmap_addr (some addr) g = record g { addr_map = erase addr g.addr_map }

unfoldable pub remove_found : Option ℕ → ℕ → Gateway → Gateway
unfolding unmap_addr
remove_found none id g = g
remove_found (some p) id g = record (unmap_addr (g.objects p).udp_addr g) {
  sessions = erase id g.sessions;
}

unfoldable pub remove_session : ℕ → Gateway → Gateway
unfolding remove_found get_session
remove_session id g = remove_found (get_session g id) id g

unfoldable pub sessions_of : ℕ → Map ℕ ℕ → (ℕ → Session) → List ℕ
sessions_of uid [] objects = []
sessions_of uid ((id, p) ∷ sessions) objects =
    let rest = sessions_of uid sessions objects in if (objects p).uid == uid then p ∷ rest else rest

unfoldable pub get_sessions_by_uid : ℕ → Gateway → List ℕ
unfolding sessions_of
get_sessions_by_uid uid g = sessions_of uid g.sessions g.objects

unfoldable pub set_udp_addr : ℕ → Bytes → Gateway → Gateway
unfolding assign
set_udp_addr p addr g = assign p (record (g.objects p) { udp_addr = some addr }) g

unfoldable pub set_kcp_conn : ℕ → Option ℕ → Gateway → Gateway
unfolding assign
set_kcp_conn p conn g = assign p (record (g.objects p) { kcp_conn = conn }) g

-- Channel 0 of `Send`, and what the other channels fall back to.
unfoldable pub send_ws : ℕ → Bytes → Gateway → Option Gateway
unfolding emit
send_ws p bytes g = some (emit (ws_write p bytes) g)

unfoldable pub send_udp : ℕ → Option Bytes → Bytes → Gateway → Option Gateway
unfolding emit send_ws
send_udp p (some addr) bytes g =
    let s = g.objects p in
    some (emit (udp_write addr (encode_header s.id s.key packet_type_raw_udp ++ bytes)) g)
send_udp p none bytes g = send_ws p bytes g

unfoldable pub write_kcp : ℕ → Option Bytes → Gateway → Option Gateway
unfolding emit
write_kcp conn none g = none
write_kcp conn (some buf) g = some (emit (kcp_write conn buf) g)

unfoldable pub send_kcp : ℕ → Option ℕ → Bytes → Gateway → Option Gateway
unfolding write_kcp send_udp
send_kcp p (some conn) bytes g = write_kcp conn (length_prefixed bytes) g
send_kcp p none bytes g = send_udp p (g.objects p).udp_addr bytes g

-- `Send`. An error, also that of a closed session, changes nothing and no caller acts on it.
unfoldable pub send : ℕ → ℕ → Bytes → Gateway → Option Gateway
unfolding send_ws send_udp send_kcp
send p channel bytes g =
    let s = g.objects p in
    if not s.connected
    then some g
    else if channel == 1
    then send_kcp p s.kcp_conn bytes g
    else if channel == 2
    then send_udp p s.udp_addr bytes g
    else send_ws p bytes g

unfoldable pub cancel : Option ℕ → Gateway → Gateway
unfolding emit
cancel none g = g
cancel (some stream) g = emit (stream_cancel stream) g

unfoldable pub close_kcp : Option ℕ → Gateway → Gateway
unfolding emit
close_kcp none g = g
close_kcp (some conn) g = emit (kcp_close conn) g

-- The request of NotifyDisconnect.
unfoldable pub disconnect_req : Session → GatewayRequest
disconnect_req s = record { conn_id = s.id; uid = s.uid; cmd_id = 0; payload = [] }

unfoldable pub notify : GatewayRequest → Gateway → Gateway
notify req g = record g { notices = g.notices ++ req ∷ [] }

unfoldable pub close_connected : ℕ → Session → Gateway → Gateway
unfolding cancel close_kcp disconnect_req notify assign emit remove_session
close_connected p s g = remove_session s.id (
    close_kcp s.kcp_conn (
      emit (ws_close p) (
        notify (disconnect_req s)
          (cancel s.game_stream (assign p (record s { connected = false }) g)))))

unfoldable pub close : ℕ → Gateway → Gateway
unfolding close_connected
close p g = if (g.objects p).connected then close_connected p (g.objects p) g else g

-- The frame of a response: the command and the payload.
unfoldable pub out_frame : GatewayResponse → Bytes
out_frame r = put_uint16 (r.cmd_id % 2 ^ 16) ++ r.payload

-- `Send` of a response on a channel, and `Close` where the response says so.
unfoldable pub kick_if : Bool → ℕ → Option Gateway → Option Gateway
unfolding close
kick_if kick p none = none
kick_if kick p (some g) = some (if kick then close p g else g)

unfoldable pub deliver : ℕ → ℕ → GatewayResponse → Gateway → Option Gateway
unfolding kick_if send out_frame
deliver p channel r g = kick_if r.kick_client p (send p channel (out_frame r) g)
