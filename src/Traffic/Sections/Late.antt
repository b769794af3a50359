-- ===== src/Traffic/Sections/Late.antt =====
-- A Close between the lookup of a session and the binding of its address in readLoop
-- (gateway/network/udp_server.go).
use ki_han_server_distribute.Base.{
  ℕ, List, ◌∷◌, ◌==◌, nat_beq_iff, ltb, length, take, drop, arith, if◌then◌else◌, true, false, none,
  some, nat_eq, ◌≡◌, refl, ap, ◌∙◌,
}
use ki_han_server_distribute.Base.Bytes.{Bytes, bytes_eq}
use ki_han_server_distribute.Base.Map.{find, find-set_self}
use ki_han_server_distribute.Gateway.{
  Gateway, assign, close, get_session, get_session_by_addr, session_of_id, insert_session,
  map_udp_addr, set_udp_addr, emit,
}
use ki_han_server_distribute.Gateway.Invariant.{put_object_self}
use ki_han_server_distribute.Gateway.Closing.{ended}
use ki_han_server_distribute.Gateway.Closed.{close-get_session, close-objects, close_off}
use ki_han_server_distribute.Traffic.{take_packet, inject_kcp}
use ki_han_server_distribute.Packet.{header_size, decode_header}
use ki_han_server_distribute.Threads.Moves.{
  Moves, Moves-trans, Moves-later, Moves-section, Moves-alone,
}
use ki_han_server_distribute.Threads.{Task, ret, change, alone, ◌>>=◌, ◌>>◌}
use ki_han_server_distribute.Traffic.Sections.{
  Step, close_session_task, bind_task, accepted_task, accept_task, decoded_task, datagram_task,
}
use ki_han_server_distribute.Traffic.Sections.Alone.{assigned, close_session_task-alone}

-- A datagram from an address, with a header that names a session and has its key.
pub record Names (buf : Bytes) (g : Gateway) (p p_type : ℕ) : Type 0 where
  pub long : ltb (length buf) header_size ≡ false
  pub header :
      decode_header (take header_size buf) ≡ some ((g.objects p).id, (g.objects p).key, p_type)
  pub found : get_session g (g.objects p).id ≡ some p

abbrev fields : Gateway → ℕ → ℕ → ℕ × ℕ × ℕ
fields g p p_type = ((g.objects p).id, (g.objects p).key, p_type)

module _ {A : Type 0} (k : Unit {0} → Task Gateway A) where
  -- What readLoop does with the datagram before it looks at the session's address.
  datagram_task-Moves :
      (addr buf : Bytes) (p p_type : ℕ) (g : Gateway) (ts : List (Task Gateway A))
      → Names buf g p p_type
      → Moves g
          ((datagram_task addr buf >>= k) ∷ ts)
          g
          ((accepted_task p (fields g p p_type) addr (drop header_size buf) >>= k) ∷ ts)
  unfolding datagram_task decoded_task accept_task ◌>>=◌
  datagram_task-Moves addr buf p p_type g ts n =
      let h = fields g p p_type in
      let payload = drop header_size buf in
      let looked : datagram_task addr buf ≡ decoded_task (some h) addr payload =
        rw (n.long, n.header) refl in
      let keyed : ((g.objects p).key == (g.objects p).key) ≡ true = (nat_beq_iff _ _).1 refl in
      Moves-trans
        (Moves-section (datagram_task addr buf >>= k) (accept_task (some p) h addr payload >>= k) g
          ts (ap (λ t. t >>= k) looked) (ap (λ o. accept_task o h addr payload >>= k) n.found))
        (Moves-section (accept_task (some p) h addr payload >>= k)
          (accepted_task p h addr payload >>= k) g ts refl
          (ap (λ b. (if b then accepted_task p h addr payload else ret tt) >>= k) keyed))

-- What readLoop does with a datagram behind its look at the address, where there was none.
late_run : (p p_type : ℕ) (addr buf : Bytes) (g : Gateway) → Gateway
late_run p p_type addr buf g =
    let s = g.objects p in
    take_packet s.id s.key p_type (drop header_size buf) addr
      (map_udp_addr s.id addr (set_udp_addr p addr (close p g)))

take_packet-kept :
    (id key p_type : ℕ) (payload addr : Bytes) (g : Gateway)
    → let g' = take_packet id key p_type payload addr g in
      (g'.addr_map ≡ g.addr_map) × (g'.sessions ≡ g.sessions) × (g'.objects ≡ g.objects)
unfolding take_packet inject_kcp emit
take_packet-kept id key p_type payload addr g = ground arith

late_run-Moves :
    {A : Type 0} (k k' : Unit {0} → Task Gateway A) (others : List (Task Gateway A))
    (addr buf : Bytes) (p p_type : ℕ) (g : Gateway)
    → Names buf g p p_type
    → (g.objects p).udp_addr ≡ none
    → Moves g
        ((datagram_task addr buf >>= k) ∷ (close_session_task p >>= k') ∷ others)
        (late_run p p_type addr buf g)
        (k tt ∷ k' tt ∷ others)
unfolding late_run accepted_task bind_task alone ◌>>=◌
late_run-Moves k k' others addr buf p p_type g n fresh =
    let s = g.objects p in
    let payload = drop header_size buf in
    let closing = close_session_task p >>= k' in
    let bind : Step =
      bind_task p s.id none addr >> change (take_packet s.id s.key p_type payload addr) in
    let looks =
      Moves-section (accepted_task p (fields g p p_type) addr payload >>= k) (bind >>= k) g
        (closing ∷ others) refl
        (ap
          (λ o.
            (bind_task p s.id o addr >> change (take_packet s.id s.key p_type payload addr)) >>= k)
          fresh) in
    let closes =
      Moves-alone (close_session_task p) k' others g (close p g) tt
        (close_session_task-alone p g) in
    let binds =
      Moves-alone bind k (k' tt ∷ others) (close p g) (late_run p p_type addr buf g) tt refl in
    Moves-trans (datagram_task-Moves k addr buf p p_type g (closing ∷ others) n)
      (Moves-trans looks (Moves-trans (Moves-later (bind >>= k) closes) binds))

-- A datagram with the id and key of a connected session that has no address yet, and a Close of this
-- session, may be handled at the same time, whatever the two threads do then and whatever other
-- threads there are, so that in the end the address of the datagram leads to the id of the
-- session, although the manager has no session of that id, and another Close does not change this.
-- A session that is given this id then is found under the address, to which it was never bound.
pub datagram_late :
    {A : Type 0} (k k' : Unit {0} → Task Gateway A) (others : List (Task Gateway A))
    (p p_type key uid : ℕ) (token addr buf : Bytes) (g : Gateway)
    → Names buf g p p_type
    → (g.objects p).connected ≡ true
    → (g.objects p).udp_addr ≡ none
    → let id = (g.objects p).id in
      (g' : Gateway) × Moves g
        ((datagram_task addr buf >>= k) ∷ (close_session_task p >>= k') ∷ others)
        g'
        (k tt ∷ k' tt ∷ others)
      × (find addr g'.addr_map ≡ some id)
      × (get_session g' id ≡ none)
      × (close p g' ≡ g')
      × (let (g'', q) = insert_session id key token uid g' in get_session_by_addr g'' addr ≡ some q)
unfolding map_udp_addr set_udp_addr insert_session get_session_by_addr session_of_id get_session
    assign late_run
datagram_late k k' others p p_type key uid token addr buf g n on fresh =
    let id = (g.objects p).id in
    let h = close p g in
    let bound = map_udp_addr id addr (set_udp_addr p addr h) in
    let g' = late_run p p_type addr buf g in
    let (addr_map, sessions, objects) =
      take_packet-kept id (g.objects p).key p_type (drop header_size buf) addr bound in
    let led : find addr g'.addr_map ≡ some id =
      ap (find addr) addr_map ∙ find-set_self addr id h.addr_map in
    let off : (g'.objects p).connected ≡ false =
      ap (λ o. (o p).connected) objects
      ∙ ap (λ s. s.connected) (assigned p _ h)
      ∙ ap (λ s. s.connected)
          (close-objects p p g ∙ put_object_self p (ended (g.objects p)) g.objects) in
    (
      g',
      late_run-Moves k k' others addr buf p p_type g n fresh,
      led,
      ap (find id) sessions ∙ close-get_session p g on,
      close_off p g' off,
      rw (led, find-set_self) refl,
    )
