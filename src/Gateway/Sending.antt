-- ===== src/Gateway/Sending.antt =====
-- What `Session.Send` of gateway/network/session.go puts on the wire, and what a client reads
-- there.
use mathlib.Core.List.{append-nil}
use ki_han_server_distribute.Base.{
  ℕ, ◌+◌, ◌*◌, ◌/◌, ◌%◌, ◌^◌, ◌<◌, Bool, true, false, Option, none, some, [], ◌∷◌, ◌++◌, ◌≡◌, refl,
  ap, inl, inr, arith, if◌then◌else◌, ◌==◌, ◌&&◌, nat_eq, length, drop, ==_refl, Bool-cases,
}
use ki_han_server_distribute.Base.Bytes.{Bytes, bytes_eq, bytes_beq_iff}
use ki_han_server_distribute.Packet.{
  header_size, uint16_at, encode_header, decode_header, read_app_frame, packet_type_raw_udp,
}
use ki_han_server_distribute.Packet.Frames.{
  decode_header-encode_header, read_app_frame-length_prefixed,
}
use ki_han_server_distribute.Proto.{GatewayResponse}
use ki_han_server_distribute.Gateway.Invariant.{is_bound}
use ki_han_server_distribute.Gateway.{
  Session, Gateway, Effect, ws_write, kcp_write, udp_write, emit, send, send_ws, send_udp, send_kcp,
  write_kcp, out_frame,
}

-- A message of a WebSocket or of a raw datagram, as the client takes it apart.
read_message : Bytes → Option (ℕ × Bytes)
read_message (b0 ∷ b1 ∷ payload) = some (uint16_at (b0 ∷ b1 ∷ payload), payload)
read_message _ = none

read_frame : Option ((ℕ × Bytes) × Bytes) → Option (ℕ × Bytes)
read_frame none = none
read_frame (some (frame, rest)) = some frame

read_raw : Session → Option (ℕ × ℕ × ℕ) → Bytes → Option (ℕ × Bytes)
unfolding read_message
read_raw s none payload = none
read_raw s (some (id, key, p_type)) payload =
    if id == s.id && key == s.key && p_type == packet_type_raw_udp
    then read_message payload
    else none

is_conn : Option ℕ → ℕ → Bool
is_conn none conn = false
is_conn (some own) conn = own == conn

-- What the client of session p reads of an effect: the command and the payload of a message on
-- its own WebSocket, KCP stream or address.
pub client_reads : ℕ → Session → Effect → Option (ℕ × Bytes)
unfolding read_message read_frame read_raw is_conn
client_reads p s (ws_write q bytes) = if q == p then read_message bytes else none
client_reads p s (kcp_write conn bytes) =
    let frame = read_frame (read_app_frame bytes) in if is_conn s.kcp_conn conn then frame else none
client_reads p s (udp_write addr bytes) =
    let raw = read_raw s (decode_header bytes) (drop header_size bytes) in
    if is_bound s.udp_addr addr then raw else none
client_reads p s _ = none

-- What `Send` leaves: one effect more, from which the client reads the response.
unfoldable pub Arrives : ℕ → GatewayResponse → Gateway → Option Gateway → Type 0
Arrives p r g sent =
    (e : Effect) × (sent ≡ some (emit e g))
    × (client_reads p (g.objects p) e ≡ some (r.cmd_id, r.payload))

module _ (p : ℕ) (r : GatewayResponse) (g : Gateway) (command : r.cmd_id < 2 ^ 16) where
  read_message-out_frame : read_message (out_frame r) ≡ some (r.cmd_id, r.payload)
  unfolding read_message out_frame
  read_message-out_frame =
      let same : (r.cmd_id % 65536 / 256 % 256) * 2 ^ 8 + r.cmd_id % 65536 % 256 ≡ r.cmd_id =
        omega arith in
      ap (λ n. some (n, r.payload)) same

  send_ws-Arrives : Arrives p r g (send_ws p (out_frame r) g)
  unfolding Arrives send_ws client_reads
  send_ws-Arrives = (ws_write p (out_frame r), refl, rw (==_refl p) read_message-out_frame)

  module _ (id32 : (g.objects p).id < 2 ^ 32) (key32 : (g.objects p).key < 2 ^ 32) where
    read_raw_own :
        (s : Session)
        → read_raw s (some (s.id, s.key, packet_type_raw_udp)) (out_frame r)
          ≡ some (r.cmd_id, r.payload)
    unfolding read_raw
    read_raw_own s = rw (==_refl s.id, ==_refl s.key) read_message-out_frame

    reads_udp :
        (addr : Bytes)
        → (g.objects p).udp_addr ≡ some addr
        → client_reads p (g.objects p) (
            udp_write addr
              (encode_header (g.objects p).id (g.objects p).key packet_type_raw_udp ++ out_frame r))
          ≡ some (r.cmd_id, r.payload)
    unfolding client_reads encode_header
    reads_udp addr e =
        let s = g.objects p in
        let header =
          decode_header-encode_header s.id s.key packet_type_raw_udp (out_frame r) id32 key32 in
        let same : (addr == addr) ≡ true = (bytes_beq_iff addr addr).1 refl in
        let here : is_bound s.udp_addr addr ≡ true = rw e same in rw (here, header) (read_raw_own s)

    send_udp-Arrives :
        (addr : Option Bytes)
        → (g.objects p).udp_addr ≡ addr
        → Arrives p r g (send_udp p addr (out_frame r) g)
    unfolding Arrives send_udp
    send_udp-Arrives none e = send_ws-Arrives
    send_udp-Arrives (some addr) e =
        let s = g.objects p in
        (
          udp_write addr (encode_header s.id s.key packet_type_raw_udp ++ out_frame r),
          refl,
          reads_udp addr e,
        )

    reads_kcp :
        (conn : ℕ) (f : Bytes)
        → (g.objects p).kcp_conn ≡ some conn
        → read_app_frame (f ++ []) ≡ some ((r.cmd_id % 2 ^ 16, r.payload), [])
        → client_reads p (g.objects p) (kcp_write conn f) ≡ some (r.cmd_id, r.payload)
    unfolding client_reads is_conn read_frame
    reads_kcp conn f e read =
        let whole : r.cmd_id % 2 ^ 16 ≡ r.cmd_id = omega arith in
        let read' : read_app_frame f ≡ some ((r.cmd_id, r.payload), []) =
          rw (append-nil f, whole) at read in
        let here : is_conn (g.objects p).kcp_conn conn ≡ true = rw e (==_refl conn) in
        rw (here, read') refl

    send_kcp-Arrives :
        (conn : Option ℕ)
        → (g.objects p).kcp_conn ≡ conn
        → length r.payload < 65532
        → Arrives p r g (send_kcp p conn (out_frame r) g)
    unfolding Arrives send_kcp write_kcp out_frame
    send_kcp-Arrives none e short = send_udp-Arrives (g.objects p).udp_addr refl
    send_kcp-Arrives (some conn) e short =
        let (f, written, also, read) =
          read_app_frame-length_prefixed (r.cmd_id % 2 ^ 16) r.payload [] (omega arith) short in
        (kcp_write conn f, rw written refl, reads_kcp conn f e read)

    -- A response whose command has 16 bits and whose payload is shorter than 65532 bytes, sent to a
    -- connected session whose id and key have 32 bits: on any channel `Send` does not panic and
    -- makes one write, on the transport that the session has for the channel, from which the
    -- session's client reads the command and the payload.
    pub send-Arrives :
        (channel : ℕ)
        → (g.objects p).connected ≡ true
        → length r.payload < 65532
        → Arrives p r g (send p channel (out_frame r) g)
    unfolding send
    send-Arrives channel on short =
        let kcp = send_kcp-Arrives (g.objects p).kcp_conn refl short in
        let udp = send_udp-Arrives (g.objects p).udp_addr refl in
        rw on (elim (Bool-cases (channel == 1)) [
          | inl one ↦ rw one kcp
          | inr other ↦ rw other (elim (Bool-cases (channel == 2)) [
            | inl two ↦ rw two udp
            | inr ws ↦ rw ws send_ws-Arrives
          ])
        ])
