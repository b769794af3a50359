-- ===== src/Traffic/Quiet.antt =====
-- Which rounds of the gateway's loops leave every session with its id, its account and its
-- connection, and which may close one.
use ki_han_server_distribute.Base.{
  ℕ, Bool, true, false, Option, none, some, ◌≡◌, refl, ap, ◌∙◌, inl, inr, arith, ◌==◌, ltb, nat_eq,
  nat_beq_iff, Bool-cases, length, take, drop,
}
use ki_han_server_distribute.Base.Bytes.{Bytes, bytes_eq}
use ki_han_server_distribute.Proto.{GatewayRequest}
use ki_han_server_distribute.Packet.{header_size, decode_header, length_prefixed}
use ki_han_server_distribute.Gateway.{
  Session, Gateway, assign, emit, get_session, set_udp_addr, set_kcp_conn, map_udp_addr, send_ws,
  send_udp, write_kcp, send_kcp, send, get_session_by_addr,
}
use ki_han_server_distribute.Traffic.{
  route_game, bind_addr, inject_kcp, take_packet, accept_packet, decoded, read_datagram,
  write_found, write_to, accept_found, accept_kcp,
}

pub record Still (o o' : ℕ → Session) : Type 0 where
  pub id : (q : ℕ) → (o' q).id ≡ (o q).id
  pub uid : (q : ℕ) → (o' q).uid ≡ (o q).uid
  pub token : (q : ℕ) → (o' q).token ≡ (o q).token
  pub connected : (q : ℕ) → (o' q).connected ≡ (o q).connected

pub Still-same : (o o' : ℕ → Session) → o' ≡ o → Still o o'
Still-same o o' e = record {
  id = λ q. ap (λ x. (x q).id) e;
  uid = λ q. ap (λ x. (x q).uid) e;
  token = λ q. ap (λ x. (x q).token) e;
  connected = λ q. ap (λ x. (x q).connected) e;
}

pub Still-trans : {o o' o'' : ℕ → Session} → Still o o' → Still o' o'' → Still o o''
Still-trans a b = record {
  id = λ q. b.id q ∙ a.id q;
  uid = λ q. b.uid q ∙ a.uid q;
  token = λ q. b.token q ∙ a.token q;
  connected = λ q. b.connected q ∙ a.connected q;
}

-- One session is written back with the same id, account and connection.
assign-Still :
    (p : ℕ) (s : Session) (g : Gateway)
    → s.id ≡ (g.objects p).id
    → s.uid ≡ (g.objects p).uid
    → s.token ≡ (g.objects p).token
    → s.connected ≡ (g.objects p).connected
    → Still g.objects (assign p s g).objects
unfolding assign
assign-Still p s g i u t c = record {
  id = λ q. ground (arith, nat_beq_iff p q);
  uid = λ q. ground (arith, nat_beq_iff p q);
  token = λ q. ground (arith, nat_beq_iff p q);
  connected = λ q. ground (arith, nat_beq_iff p q);
}

pub route_game-Still :
    (opens : Bool) (p : ℕ) (stream : Option ℕ) (req : GatewayRequest) (g : Gateway)
    → Still g.objects (route_game opens p stream req g).objects
unfolding route_game emit
route_game-Still opens p (some stream) req g = Still-same _ _ refl
route_game-Still false p none req g = Still-same _ _ refl
route_game-Still true p none req g =
    assign-Still p (record (g.objects p) { game_stream = some g.next_stream }) g refl refl refl refl

pub set_kcp_conn-Still :
    (p : ℕ) (conn : Option ℕ) (g : Gateway) → Still g.objects (set_kcp_conn p conn g).objects
unfolding set_kcp_conn
set_kcp_conn-Still p conn g =
    assign-Still p (record (g.objects p) { kcp_conn = conn }) g refl refl refl refl

bind_addr-Still :
    (p id : ℕ) (bound : Option Bytes) (addr : Bytes) (g : Gateway)
    → Still g.objects (bind_addr p id bound addr g).objects
unfolding bind_addr map_udp_addr set_udp_addr
bind_addr-Still p id none addr g =
    assign-Still p (record (g.objects p) { udp_addr = some addr }) g refl refl refl refl
bind_addr-Still p id (some old) addr g = Still-same _ _ refl

take_packet-objects :
    (id key p_type : ℕ) (payload addr : Bytes) (g : Gateway)
    → (take_packet id key p_type payload addr g).objects ≡ g.objects
unfolding take_packet inject_kcp emit
take_packet-objects id key p_type payload addr g = ground arith

accept_packet-Still :
    (found : Option ℕ) (id key p_type : ℕ) (addr payload : Bytes) (g : Gateway)
    → Still g.objects (accept_packet found (id, key, p_type) addr payload g).objects
unfolding accept_packet
accept_packet-Still none id key p_type addr payload g = Still-same _ _ refl
accept_packet-Still (some p) id key p_type addr payload g =
    elim (Bool-cases ((g.objects p).key == key)) [
      | inl own ↦
          rw
            (
              own,
              take_packet-objects id key p_type payload addr
                  (bind_addr p id (g.objects p).udp_addr addr g),
            )
            (bind_addr-Still p id (g.objects p).udp_addr addr g)
      | inr other ↦ rw other (Still-same _ _ refl)
    ]

pub read_datagram-Still :
    (addr buf : Bytes) (g : Gateway) → Still g.objects (read_datagram addr buf g).objects
unfolding read_datagram decoded
read_datagram-Still addr buf g = elim (Bool-cases (ltb (length buf) header_size)) [
  | inl short ↦ rw short (Still-same _ _ refl)
  | inr long ↦ rw long (decoded_lem (decode_header (take header_size buf)))
]
  where
    decoded_lem :
        (header : Option (ℕ × ℕ × ℕ))
        → Still g.objects (decoded header addr (drop header_size buf) g).objects
    decoded_lem none = Still-same _ _ refl
    decoded_lem (some (id, key, p_type)) =
        accept_packet-Still (get_session g id) id key p_type addr (drop header_size buf) g

pub write_to-objects :
    (addr payload : Bytes) (g : Gateway) → (write_to addr payload g).objects ≡ g.objects
unfolding write_to write_found emit
write_to-objects addr payload g = found_lem (get_session_by_addr g addr)
  where
    found_lem : (p : Option ℕ) → (write_found p addr payload g).objects ≡ g.objects
    found_lem none = refl
    found_lem (some p) = refl

pub accept_kcp-Still :
    (conn : ℕ) (addr : Bytes) (g : Gateway) → Still g.objects (accept_kcp conn addr g).objects
unfolding accept_kcp accept_found emit
accept_kcp-Still conn addr g = found_lem (get_session_by_addr g addr)
  where
    found_lem : (p : Option ℕ) → Still g.objects (accept_found p conn g).objects
    found_lem none = Still-same _ _ refl
    found_lem (some p) = set_kcp_conn-Still p (some conn) g

-- What `Send` leaves, where it does not panic.
unfoldable pub SendStill : Gateway → Option Gateway → Type 0
SendStill g none = Unit
SendStill g (some h) = h.objects ≡ g.objects

send_udp-SendStill :
    (p : ℕ) (addr : Option Bytes) (bytes : Bytes) (g : Gateway)
    → SendStill g (send_udp p addr bytes g)
unfolding SendStill send_udp send_ws emit
send_udp-SendStill p none bytes g = refl
send_udp-SendStill p (some addr) bytes g = refl

send_kcp-SendStill :
    (p : ℕ) (conn : Option ℕ) (bytes : Bytes) (g : Gateway) → SendStill g (send_kcp p conn bytes g)
unfolding send_kcp SendStill write_kcp emit
send_kcp-SendStill p none bytes g = send_udp-SendStill p (g.objects p).udp_addr bytes g
send_kcp-SendStill p (some conn) bytes g = written_lem (length_prefixed bytes)
  where
    written_lem : (buf : Option Bytes) → SendStill g (write_kcp conn buf g)
    written_lem none = tt
    written_lem (some buf) = refl

pub send-SendStill :
    (p channel : ℕ) (bytes : Bytes) (g : Gateway) → SendStill g (send p channel bytes g)
unfolding SendStill send send_ws emit
send-SendStill p channel bytes g = ground (
  arith,
  send_kcp-SendStill p (g.objects p).kcp_conn bytes g,
  send_udp-SendStill p (g.objects p).udp_addr bytes g,
)
