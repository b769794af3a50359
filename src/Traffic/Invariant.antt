-- ===== src/Traffic/Invariant.antt =====
-- What the loops of the gateway, gateway/network/ and gateway/main.go, keep true of the sessions.
use ki_han_server_distribute.Base.{
  ℕ, Bool, true, false, Option, none, some, List, [], ◌∷◌, ◌≡◌, refl, arith, if◌then◌else◌, ◌==◌,
  not, nat_eq, take, drop,
}
use ki_han_server_distribute.Base.Map.{find}
use ki_han_server_distribute.Base.Bytes.{Bytes, bytes_eq}
use ki_han_server_distribute.Proto.{GatewayRequest, GatewayResponse}
use ki_han_server_distribute.Packet.{header_size, decode_header, length_prefixed}
use ki_han_server_distribute.Gateway.{
  Gateway, assign, emit, get_session, set_udp_addr, set_kcp_conn, map_udp_addr, send_ws, send_udp,
  write_kcp, send_kcp, send, close, kick_if, deliver, out_frame, get_session_by_addr,
  get_sessions_by_uid,
}
use ki_han_server_distribute.Gateway.Invariant.{GatewayInv, Holds-keep, Holds-bind}
use ki_han_server_distribute.Gateway.Closing.{close-GatewayInv}
use ki_han_server_distribute.Traffic.{
  answered, route_game, bind_addr, inject_kcp, take_packet, accept_packet, decoded, read_datagram,
  write_found, write_to, accept_found, accept_kcp, kick_all, on_kick, push_found, on_push,
}

pub emit-GatewayInv : (e : _) (g : Gateway) → GatewayInv g → GatewayInv (emit e g)
unfolding emit
emit-GatewayInv e g v = v

-- The invariant of what an operation leaves, where it does not panic.
unfoldable pub Safe : Option Gateway → Type 0
Safe none = Unit
Safe (some g) = GatewayInv g

send_udp-Safe :
    (p : ℕ) (addr : Option Bytes) (bytes : Bytes) (g : Gateway)
    → GatewayInv g
    → Safe (send_udp p addr bytes g)
unfolding send_udp send_ws emit Safe
send_udp-Safe p none bytes g v = v
send_udp-Safe p (some addr) bytes g v = v

write_kcp-Safe :
    (conn : ℕ) (buf : Option Bytes) (g : Gateway) → GatewayInv g → Safe (write_kcp conn buf g)
unfolding write_kcp emit Safe
write_kcp-Safe conn none g v = tt
write_kcp-Safe conn (some buf) g v = v

send_kcp-Safe :
    (p : ℕ) (conn : Option ℕ) (bytes : Bytes) (g : Gateway)
    → GatewayInv g
    → Safe (send_kcp p conn bytes g)
unfolding send_kcp
send_kcp-Safe p none bytes g v = send_udp-Safe p (g.objects p).udp_addr bytes g v
send_kcp-Safe p (some conn) bytes g v = write_kcp-Safe conn (length_prefixed bytes) g v

pub send-Safe :
    (p channel : ℕ) (bytes : Bytes) (g : Gateway) → GatewayInv g → Safe (send p channel bytes g)
unfolding send send_ws emit Safe
send-Safe p channel bytes g v = ground (
  arith,
  send_kcp-Safe p (g.objects p).kcp_conn bytes g v,
  send_udp-Safe p (g.objects p).udp_addr bytes g v,
)

kick_if-Safe : (kick : Bool) (p : ℕ) (r : Option Gateway) → Safe r → Safe (kick_if kick p r)
unfolding kick_if Safe
kick_if-Safe kick p none v = tt
kick_if-Safe true p (some g) v = close-GatewayInv p g v
kick_if-Safe false p (some g) v = v

pub deliver-Safe :
    (p channel : ℕ) (r : GatewayResponse) (g : Gateway)
    → GatewayInv g
    → Safe (deliver p channel r g)
unfolding deliver
deliver-Safe p channel r g v =
    kick_if-Safe r.kick_client p (send p channel (out_frame r) g)
      (send-Safe p channel (out_frame r) g v)

pub answered-Safe :
    (p : ℕ) (r : Option GatewayResponse) (g : Gateway) → GatewayInv g → Safe (answered p r g)
unfolding answered Safe
answered-Safe p none g v = v
answered-Safe p (some r) g v = deliver-Safe p 1 r g v

pub route_game-GatewayInv :
    (opens : Bool) (p : ℕ) (stream : Option ℕ) (req : GatewayRequest) (g : Gateway)
    → GatewayInv g
    → GatewayInv (route_game opens p stream req g)
unfolding route_game emit assign
route_game-GatewayInv opens p (some stream) req g v = v
route_game-GatewayInv false p none req g v = v
route_game-GatewayInv true p none req g v =
    Holds-keep v p (record (g.objects p) { game_stream = some g.next_stream })
      (record { id = refl; udp_addr = refl; connected = refl })

pub set_kcp_conn-GatewayInv :
    (p : ℕ) (conn : Option ℕ) (g : Gateway) → GatewayInv g → GatewayInv (set_kcp_conn p conn g)
unfolding set_kcp_conn assign
set_kcp_conn-GatewayInv p conn g v =
    Holds-keep v p (record (g.objects p) { kcp_conn = conn })
      (record { id = refl; udp_addr = refl; connected = refl })

bind_addr-GatewayInv :
    (p id : ℕ) (bound : Option Bytes) (addr : Bytes) (g : Gateway)
    → GatewayInv g
    → find id g.sessions ≡ some p
    → (g.objects p).udp_addr ≡ bound
    → GatewayInv (bind_addr p id bound addr g)
unfolding bind_addr map_udp_addr set_udp_addr assign
bind_addr-GatewayInv p id none addr g v led free = Holds-bind v p id addr led free
bind_addr-GatewayInv p id (some old) addr g v led bound = v

take_packet-GatewayInv :
    (id key p_type : ℕ) (payload addr : Bytes) (g : Gateway)
    → GatewayInv g
    → GatewayInv (take_packet id key p_type payload addr g)
unfolding take_packet inject_kcp emit
take_packet-GatewayInv id key p_type payload addr g v = ground arith

accept_packet-GatewayInv :
    (found : Option ℕ) (id key p_type : ℕ) (addr payload : Bytes) (g : Gateway)
    → GatewayInv g
    → find id g.sessions ≡ found
    → GatewayInv (accept_packet found (id, key, p_type) addr payload g)
unfolding accept_packet
accept_packet-GatewayInv none id key p_type addr payload g v led = v
accept_packet-GatewayInv (some p) id key p_type addr payload g v led =
    let v' = bind_addr-GatewayInv p id (g.objects p).udp_addr addr g v led refl in
    ground (
      arith,
      take_packet-GatewayInv id key p_type payload addr
          (bind_addr p id (g.objects p).udp_addr addr g) v',
    )

decoded-GatewayInv :
    (header : Option (ℕ × ℕ × ℕ)) (addr payload : Bytes) (g : Gateway)
    → GatewayInv g
    → GatewayInv (decoded header addr payload g)
unfolding decoded get_session
decoded-GatewayInv none addr payload g v = v
decoded-GatewayInv (some (id, key, p_type)) addr payload g v =
    accept_packet-GatewayInv (get_session g id) id key p_type addr payload g v refl

pub read_datagram-GatewayInv :
    (addr buf : Bytes) (g : Gateway) → GatewayInv g → GatewayInv (read_datagram addr buf g)
unfolding read_datagram
read_datagram-GatewayInv addr buf g v = ground (
  arith,
  decoded-GatewayInv (decode_header (take header_size buf)) addr (drop header_size buf) g v,
)

pub write_to-GatewayInv :
    (addr payload : Bytes) (g : Gateway) → GatewayInv g → GatewayInv (write_to addr payload g)
unfolding write_to write_found emit
write_to-GatewayInv addr payload g v = found_lem (get_session_by_addr g addr)
  where
    found_lem : (p : Option ℕ) → GatewayInv (write_found p addr payload g)
    found_lem none = v
    found_lem (some p) = v

pub accept_kcp-GatewayInv :
    (conn : ℕ) (addr : Bytes) (g : Gateway) → GatewayInv g → GatewayInv (accept_kcp conn addr g)
unfolding accept_kcp accept_found emit
accept_kcp-GatewayInv conn addr g v = found_lem (get_session_by_addr g addr)
  where
    found_lem : (p : Option ℕ) → GatewayInv (accept_found p conn g)
    found_lem none = v
    found_lem (some p) = set_kcp_conn-GatewayInv p (some conn) g v

kick_all-GatewayInv :
    (ps : List ℕ) (new_token : Bytes) (g : Gateway)
    → GatewayInv g
    → GatewayInv (kick_all ps new_token g)
unfolding kick_all
kick_all-GatewayInv [] new_token g v = v
kick_all-GatewayInv (p ∷ ps) new_token g v =
    kick_all-GatewayInv ps new_token
      (if not ((g.objects p).token == new_token) then close p g else g)
      (ground (arith, close-GatewayInv p g v))

pub on_kick-GatewayInv :
    (msg : Option (ℕ × Bytes)) (g : Gateway) → GatewayInv g → GatewayInv (on_kick msg g)
unfolding on_kick
on_kick-GatewayInv none g v = v
on_kick-GatewayInv (some (uid, new_token)) g v =
    kick_all-GatewayInv (get_sessions_by_uid uid g) new_token g v

push_found-Safe :
    (p : Option ℕ) (r : GatewayResponse) (g : Gateway) → GatewayInv g → Safe (push_found p r g)
unfolding push_found Safe
push_found-Safe none r g v = v
push_found-Safe (some p) r g v = deliver-Safe p 0 r g v

pub on_push-Safe : (r : GatewayResponse) (g : Gateway) → GatewayInv g → Safe (on_push r g)
unfolding on_push
on_push-Safe r g v = push_found-Safe (get_session g r.conn_id) r g v
