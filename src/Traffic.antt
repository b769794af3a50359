-- ===== src/Traffic.antt =====
-- What arrives at the gateway: the loops of gateway/network/ws_server.go, udp_server.go and
-- kcp_conn.go, DispatchPacket and the receive loop of session.go, and the two loops of
-- gateway/main.go. Each round of a loop is a function. The lobby behind the gRPC client is
-- `Backend`; a token store, random draws, and whether a connection comes about are arguments.
pub mod Sections
pub mod Invariant
pub mod Join
pub mod Joining
pub mod Uids
pub mod Kicking
pub mod Registry
pub mod Quiet
pub mod Leaving
pub mod Refinement
pub mod Answers
pub mod Streams
pub mod Datagrams
pub mod System
pub mod Relay
pub mod Matched
pub mod Reach
use ki_han_server_distribute.Base.{
  ℕ, ◌+◌, ◌-◌, ◌*◌, ◌<◌, ◌^◌, Bool, true, false, ◌&&◌, Option, none, some, List, [], ◌∷◌, ◌++◌, ltb,
  leb, if◌then◌else◌, ◌==◌, not, nat_eq, length, take, drop,
}
use ki_han_server_distribute.Base.Bytes.{Bytes, codes, bytes_eq}
use ki_han_server_distribute.Proto.{GatewayRequest, GatewayResponse}
use ki_han_server_distribute.Packet.{
  header_size, decode_header, encode_header, packet_type_handshake, packet_type_kcp, uint16_at,
  read_app_frame, read_frames,
}
use ki_han_server_distribute.Gateway.{
  Session, Gateway, Effect, udp_write, auth_write, kcp_close, stream_send, assign, emit,
  get_session, get_session_by_addr, map_udp_addr, set_udp_addr, set_kcp_conn, add_session,
  get_sessions_by_uid, close, deliver,
}
unfoldable pub use ki_han_server_distribute.Traffic.Join.{
  digits_value, below_32, parse_uint32, join_added, join_uid, join_text, serve_http,
}
pub use ki_han_server_distribute.Traffic.Join.{
  Joined, unauthorized, internal_error, not_upgraded, joined, Chances,
}

-- The lobby as its gRPC client sees it; `none` is an error, also a timeout. `starts` are the
-- states it may have when the gateway starts, and `moves` is what it does otherwise.
pub record Backend : Type 1 where
  pub Server : Type 0
  pub handle_request : Server → GatewayRequest → Server × Option GatewayResponse
  pub client_disconnect : Server → GatewayRequest → Server
  pub starts : Server → Type 0
  pub moves : Server → Server → Type 0

unfoldable pub request_of : Session → ℕ → Bytes → GatewayRequest
request_of s cmd_id payload = record {
  conn_id = s.id;
  uid = s.uid;
  cmd_id = cmd_id;
  payload = payload;
}

unfoldable pub answered : ℕ → Option GatewayResponse → Gateway → Option Gateway
answered p none g = some g
answered p (some r) g = deliver p 1 r g

-- The game stream is opened by the first packet for the game; `opens` is whether that succeeds.
unfoldable pub route_game : Bool → ℕ → Option ℕ → GatewayRequest → Gateway → Gateway
unfolding emit assign
route_game opens p (some stream) req g = emit (stream_send stream req) g
route_game opens p none req g =
    if opens
    then emit (stream_send g.next_stream req)
        (record (assign p (record (g.objects p) { game_stream = some g.next_stream }) g) {
          next_stream = g.next_stream + 1;
        })
    else g

-- One message of gameStreamRecvLoop. Where the stream ends the loop does, and nothing is changed.
unfoldable pub game_stream_recv : ℕ → GatewayResponse → Gateway → Option Gateway
game_stream_recv p r g = deliver p 1 r g

-- The first datagram of a session binds its address.
unfoldable pub bind_addr : ℕ → ℕ → Option Bytes → Bytes → Gateway → Gateway
unfolding map_udp_addr set_udp_addr
bind_addr p id none addr g = map_udp_addr id addr (set_udp_addr p addr g)
bind_addr p id (some bound) addr g = g

unfoldable pub inject_kcp : Bytes → Bytes → Gateway → Gateway
inject_kcp payload addr g =
    if ltb (length g.read_ch) 1024
    then record g { read_ch = g.read_ch ++ (payload, addr) ∷ [] }
    else g

unfoldable pub take_packet : ℕ → ℕ → ℕ → Bytes → Bytes → Gateway → Gateway
unfolding inject_kcp emit
take_packet id key p_type payload addr g =
    if p_type == packet_type_handshake
    then emit (udp_write addr (encode_header id key packet_type_handshake)) g
    else if p_type == packet_type_kcp
    then inject_kcp payload addr g
    else g

unfoldable pub accept_packet : Option ℕ → ℕ × ℕ × ℕ → Bytes → Bytes → Gateway → Gateway
unfolding bind_addr take_packet
accept_packet none (id, key, p_type) addr payload g = g
accept_packet (some p) (id, key, p_type) addr payload g =
    if (g.objects p).key == key
    then take_packet id key p_type payload addr (bind_addr p id (g.objects p).udp_addr addr g)
    else g

unfoldable pub decoded : Option (ℕ × ℕ × ℕ) → Bytes → Bytes → Gateway → Gateway
unfolding accept_packet get_session
decoded none addr payload g = g
decoded (some (id, key, p_type)) addr payload g =
    accept_packet (get_session g id) (id, key, p_type) addr payload g

-- One datagram of readLoop.
unfoldable pub read_datagram : Bytes → Bytes → Gateway → Gateway
unfolding decoded
read_datagram addr buf g =
    if ltb (length buf) header_size
    then g
    else decoded (decode_header (take header_size buf)) addr (drop header_size buf) g

-- `ReadFrom` into a buffer of a size, where a packet is there.
unfoldable pub read_from : ℕ → List (Bytes × Bytes) → Gateway → Option ((Bytes × Bytes) × Gateway)
read_from size [] g = none
read_from size ((payload, addr) ∷ rest) g =
    some ((take size payload, addr), record g { read_ch = rest })

unfoldable pub write_found : Option ℕ → Bytes → Bytes → Gateway → Gateway
unfolding emit
write_found none addr payload g = g
write_found (some p) addr payload g =
    let s = g.objects p in
    emit (udp_write addr (encode_header s.id s.key packet_type_kcp ++ payload)) g

-- `WriteTo`, by which the KCP library sends.
unfoldable pub write_to : Bytes → Bytes → Gateway → Gateway
unfolding write_found get_session_by_addr
write_to addr payload g = write_found (get_session_by_addr g addr) addr payload g

unfoldable pub accept_found : Option ℕ → ℕ → Gateway → Gateway
unfolding set_kcp_conn emit
accept_found none conn g = emit (kcp_close conn) g
accept_found (some p) conn g = set_kcp_conn p (some conn) g

-- One round of acceptKCPLoop.
unfoldable pub accept_kcp : ℕ → Bytes → Gateway → Gateway
unfolding accept_found get_session_by_addr
accept_kcp conn addr g = accept_found (get_session_by_addr g addr) conn g

-- The loop over the sessions of a uid that have another token than the new one.
unfoldable pub kick_all : List ℕ → Bytes → Gateway → Gateway
unfolding close
kick_all [] new_token g = g
kick_all (p ∷ ps) new_token g =
    kick_all ps new_token (if not ((g.objects p).token == new_token) then close p g else g)

-- One message of the channel `gateway:kick`, as json.Unmarshal reads it.
unfoldable pub on_kick : Option (ℕ × Bytes) → Gateway → Gateway
unfolding kick_all
on_kick none g = g
on_kick (some (uid, new_token)) g = kick_all (get_sessions_by_uid uid g) new_token g

unfoldable pub push_found : Option ℕ → GatewayResponse → Gateway → Option Gateway
push_found none r g = some g
push_found (some p) r g = deliver p 0 r g

-- One message of the lobby's push stream.
unfoldable pub on_push : GatewayResponse → Gateway → Option Gateway
unfolding push_found get_session
on_push r g = push_found (get_session g r.conn_id) r g

module _ ⦃be : Backend⦄ where
  -- The gateway with the lobby behind it.
  abbrev pub Front : Type 0
  Front = be.Server × Option Gateway

  unfoldable pub dispatch_packet : Bool → ℕ → ℕ → Bytes → be.Server → Gateway → Front
  unfolding answered route_game request_of
  dispatch_packet opens p cmd_id payload server g =
      let req = request_of (g.objects p) cmd_id payload in
      if ltb cmd_id 2000
      then (let (server', r) = be.handle_request server req in (server', answered p r g))
      else (server, some (route_game opens p (g.objects p).game_stream req g))

  -- One message of wsReadLoop.
  unfoldable pub ws_message : Bool → ℕ → Bool → Bytes → be.Server → Gateway → Front
  unfolding dispatch_packet
  ws_message opens p binary bytes server g =
      if binary && leb 2 (length bytes)
      then dispatch_packet opens p (uint16_at bytes) (drop 2 bytes) server g
      else (server, some g)

  unfoldable pub kcp_read : Bool → ℕ → Option ((ℕ × Bytes) × Bytes) → be.Server → Gateway → Front
  unfolding dispatch_packet set_kcp_conn
  kcp_read opens p none server g = (server, some (set_kcp_conn p none g))
  kcp_read opens p (some ((cmd_id, payload), rest)) server g =
      dispatch_packet opens p cmd_id payload server g

  -- One round of the loop over a KCP stream, which ends where no frame can be read.
  unfoldable pub kcp_message : Bool → ℕ → Bytes → be.Server → Gateway → Front
  unfolding kcp_read
  kcp_message opens p stream server g = kcp_read opens p (read_app_frame stream) server g

  -- The rounds of the loop over the frames of a stream, and its end.
  unfoldable pub dispatch_all : Bool → ℕ → List (ℕ × Bytes) → be.Server → Gateway → Front
  unfolding dispatch_packet set_kcp_conn
  dispatch_all opens p [] server g = (server, some (set_kcp_conn p none g))
  dispatch_all opens p ((cmd_id, payload) ∷ frames) server g =
      let (server', r) = dispatch_packet opens p cmd_id payload server g in
      elim r [ none ↦ (server', none) | some g' ↦ dispatch_all opens p frames server' g' ]

  -- The whole loop, over all that a KCP stream brings.
  unfoldable pub kcp_loop : Bool → ℕ → Bytes → be.Server → Gateway → Front
  unfolding dispatch_all
  kcp_loop opens p stream server g =
      dispatch_all opens p (read_frames (length stream) stream) server g
