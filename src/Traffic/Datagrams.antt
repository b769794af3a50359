-- ===== src/Traffic/Datagrams.antt =====
-- The UDP side of the gateway, readLoop and WriteTo of gateway/network/udp_server.go and
-- kcp_conn.go: which datagrams are let in, and where the answers go.
use mathlib.Core.List.{append-nil}
use ki_han_server_distribute.Base.{
  ℕ, ◌+◌, ◌<◌, ◌^◌, true, false, Option, none, some, [], ◌∷◌, ◌++◌, ◌≡◌, refl, sym, ap, ◌∙◌, inl,
  inr, arith, ◌==◌, ltb, nat_eq, nat_beq_iff, ==_refl, length, length-append, take, drop,
  Bool-cases,
}
use ki_han_server_distribute.Base.Map.{find, find-set_self}
use ki_han_server_distribute.Base.Bytes.{Bytes, bytes_eq, bytes_beq_iff}
use ki_han_server_distribute.Packet.{
  header_size, encode_header, decode_header, packet_type_handshake, packet_type_kcp,
}
use ki_han_server_distribute.Packet.Frames.{take-append, drop-append, decode_header-encode_header}
use ki_han_server_distribute.Gateway.{
  Gateway, udp_write, assign, emit, get_session, get_session_by_addr, session_of_id, map_udp_addr,
  set_udp_addr, close,
}
use ki_han_server_distribute.Gateway.Invariant.{GatewayInv, put_object_self}
use ki_han_server_distribute.Gateway.Closed.{close-objects, close-addr_map}
use ki_han_server_distribute.Traffic.{
  bind_addr, take_packet, accept_packet, decoded, read_datagram, write_to, write_found,
}

-- The credentials of a datagram are those of a session of the manager.
unfoldable pub Credentials : Gateway → Option (ℕ × ℕ × ℕ) → ℕ → Type 0
Credentials g none p = ⊥
Credentials g (some (id, key, p_type)) p = (find id g.sessions ≡ some p) × ((g.objects p).key ≡ key)

accept_packet_refused :
    (id key p_type : ℕ) (found : Option ℕ) (addr payload : Bytes) (g : Gateway)
    → find id g.sessions ≡ found
    → ((p : ℕ) → ¬ Credentials g (some (id, key, p_type)) p)
    → accept_packet found (id, key, p_type) addr payload g ≡ g
unfolding accept_packet Credentials
accept_packet_refused id key p_type none addr payload g e refused = refl
accept_packet_refused id key p_type (some p) addr payload g e refused =
    let wrong : ((g.objects p).key == key) ≡ false = elim (Bool-cases ((g.objects p).key == key)) [
      | inl own ↦ absurd (refused p (e, (nat_beq_iff (g.objects p).key key).0 own))
      | inr other ↦ other
    ] in
    rw wrong refl

decoded_refused :
    (header : Option (ℕ × ℕ × ℕ)) (addr payload : Bytes) (g : Gateway)
    → ((p : ℕ) → ¬ Credentials g header p)
    → decoded header addr payload g ≡ g
unfolding decoded get_session
decoded_refused none addr payload g refused = refl
decoded_refused (some (id, key, p_type)) addr payload g refused =
    accept_packet_refused id key p_type (find id g.sessions) addr payload g refl refused

-- A datagram whose header does not name a session of the manager with that session's key, or
-- which is too short for a header, changes nothing and is not answered.
pub read_datagram_refused :
    (addr buf : Bytes) (g : Gateway)
    → ((p : ℕ) → ¬ Credentials g (decode_header (take header_size buf)) p)
    → read_datagram addr buf g ≡ g
unfolding read_datagram
read_datagram_refused addr buf g refused =
    let same =
      decoded_refused (decode_header (take header_size buf)) addr (drop header_size buf) g
        refused in
    ground (arith, same)

read_datagram_split :
    (addr header payload : Bytes) (g : Gateway)
    → length header ≡ header_size
    → read_datagram addr (header ++ payload) g ≡ decoded (decode_header header) addr payload g
unfolding read_datagram
read_datagram_split addr header payload g e =
    let n : length (header ++ payload) ≡ 9 + length payload =
      length-append header payload ∙ ap (λ m. m + length payload) e in
    let long : ltb (9 + length payload) 9 ≡ false = ground arith in
    let front : take 9 (header ++ payload) ≡ header =
      ap (λ m. take m (header ++ payload)) (sym e) ∙ take-append header payload in
    let back : drop 9 (header ++ payload) ≡ payload =
      ap (λ m. drop m (header ++ payload)) (sym e) ∙ drop-append header payload in
    rw (n, long, front, back) refl

-- A datagram as a client writes it, under a session's id and key.
read_datagram_own :
    (p p_type : ℕ) (addr payload : Bytes) (g : Gateway)
    → find (g.objects p).id g.sessions ≡ some p
    → (g.objects p).id < 2 ^ 32
    → (g.objects p).key < 2 ^ 32
    → read_datagram addr (encode_header (g.objects p).id (g.objects p).key p_type ++ payload) g
      ≡ take_packet
          (g.objects p).id
          (g.objects p).key
          p_type
          payload
          addr
          (bind_addr p (g.objects p).id (g.objects p).udp_addr addr g)
unfolding decoded accept_packet get_session
read_datagram_own p p_type addr payload g led hi hk =
    let s = g.objects p in
    let whole = encode_header s.id s.key p_type in
    let header : decode_header whole ≡ some (s.id, s.key, p_type) =
      ap decode_header (sym (append-nil whole))
      ∙ decode_header-encode_header s.id s.key p_type [] hi hk in
    read_datagram_split addr whole payload g (unfold encode_header in refl)
    ∙ rw (header, led, ==_refl s.key) refl

write_to_lem :
    (p : ℕ) (addr out : Bytes) (g : Gateway)
    → get_session_by_addr g addr ≡ some p
    → write_to addr out g
      ≡ emit
          (udp_write addr (encode_header (g.objects p).id (g.objects p).key packet_type_kcp ++ out))
          g
unfolding write_to write_found
write_to_lem p addr out g e = rw e refl

-- The gateway with an address bound to a session of the manager.
bound_to : ℕ → Bytes → Gateway → Gateway
bound_to p addr g = map_udp_addr (g.objects p).id addr (set_udp_addr p addr g)

bound_to-objects :
    (p : ℕ) (addr : Bytes) (g : Gateway)
    → (bound_to p addr g).objects p ≡ record (g.objects p) { udp_addr = some addr }
unfolding bound_to map_udp_addr set_udp_addr assign
bound_to-objects p addr g =
    put_object_self p (record (g.objects p) { udp_addr = some addr }) g.objects

get_session_by_addr-bound_to :
    (p : ℕ) (addr : Bytes) (g : Gateway)
    → find (g.objects p).id g.sessions ≡ some p
    → get_session_by_addr (bound_to p addr g) addr ≡ some p
unfolding bound_to map_udp_addr set_udp_addr assign get_session_by_addr session_of_id get_session
get_session_by_addr-bound_to p addr g led = rw (find-set_self addr (g.objects p).id g.addr_map) led

-- The handshake of a session of the manager that no address is bound to yet, from an address:
-- the session is bound to it and the address leads to the session, the header comes back, and
-- what the KCP library writes to the address goes out under the session's id and key.
pub read_datagram_handshake :
    (p : ℕ) (addr payload out : Bytes) (g : Gateway)
    → find (g.objects p).id g.sessions ≡ some p
    → (g.objects p).id < 2 ^ 32
    → (g.objects p).key < 2 ^ 32
    → (g.objects p).udp_addr ≡ none
    → let s = g.objects p in
      let header = encode_header s.id s.key packet_type_handshake in
      let g' = read_datagram addr (header ++ payload) g in
      (get_session_by_addr g' addr ≡ some p)
      × ((g'.objects p).udp_addr ≡ some addr)
      × (g'.effects ≡ g.effects ++ udp_write addr header ∷ [])
      × (write_to addr out g'
          ≡ emit (udp_write addr (encode_header s.id s.key packet_type_kcp ++ out)) g')
unfolding emit bound_to take_packet bind_addr get_session_by_addr session_of_id get_session
read_datagram_handshake p addr payload out g led hi hk free =
    let s = g.objects p in
    let header = encode_header s.id s.key packet_type_handshake in
    let h = emit (udp_write addr header) (bound_to p addr g) in
    let after : read_datagram addr (header ++ payload) g ≡ h =
      read_datagram_own p packet_type_handshake addr payload g led hi hk ∙ rw free refl in
    let leads : get_session_by_addr h addr ≡ some p = get_session_by_addr-bound_to p addr g led in
    let object : h.objects p ≡ record s { udp_addr = some addr } = bound_to-objects p addr g in
    rw after (
      leads,
      ap (λ x. x.udp_addr) object,
      refl,
      write_to_lem p addr out h leads
          ∙ ap (λ x. emit (udp_write addr (encode_header x.id x.key packet_type_kcp ++ out)) h)
              object,
    )

-- Where two connected sessions are bound to one address, closing one takes the address away from
-- both: the other stays connected and bound, but what the KCP library writes for it is lost.
pub close-shared_addr :
    (p q : ℕ) (addr out : Bytes) (g : Gateway)
    → GatewayInv g
    → (p == q) ≡ false
    → (g.objects p).connected ≡ true
    → (g.objects p).udp_addr ≡ some addr
    → (g.objects q).connected ≡ true
    → (g.objects q).udp_addr ≡ some addr
    → let g' = close p g in
      ((g'.objects q).connected ≡ true)
      × ((g'.objects q).udp_addr ≡ some addr)
      × (get_session_by_addr g' addr ≡ none)
      × (write_to addr out g' ≡ g')
unfolding get_session_by_addr session_of_id write_to write_found
close-shared_addr p q addr out g v other on bound on' bound' =
    let kept : (close p g).objects q ≡ g.objects q = close-objects p q g ∙ rw other refl in
    let same : (addr == addr) ≡ true = (bytes_beq_iff addr addr).1 refl in
    let lost : find addr (close p g).addr_map ≡ none =
      close-addr_map p addr g v on ∙ rw (bound, same) refl in
    (
      ap (λ s. s.connected) kept ∙ on',
      ap (λ s. s.udp_addr) kept ∙ bound',
      rw lost refl,
      rw lost refl,
    )
