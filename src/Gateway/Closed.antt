-- ===== src/Gateway/Closed.antt =====
-- What is left of a session, its notice and its address after `Close` of session.go.
use ki_han_server_distribute.Base.{
  ℕ, true, false, Option, none, some, [], ◌∷◌, ◌++◌, ◌≡◌, refl, sym, ap, ◌∙◌, inl, inr,
  if◌then◌else◌, ◌==◌, nat_eq, nat_beq_iff, Bool-cases,
}
use ki_han_server_distribute.Base.Map.{find-erase_self, find}
use ki_han_server_distribute.Base.Bytes.{Bytes, bytes_eq}
use ki_han_server_distribute.Gateway.{
  Session, Gateway, ws_close, assign, emit, remove_session, remove_found, unmap_addr, get_session,
  cancel, close_kcp, notify, disconnect_req, close_connected, close,
}
use ki_han_server_distribute.Gateway.Invariant.{GatewayInv, put_object, put_object_self, is_bound}
use ki_han_server_distribute.Gateway.Closing.{
  ended, hung_up, hung_up-Agrees, unmap_addr_rest, unmap_addr-Holds,
}

ended_lem : (s : Session) → s.connected ≡ false → ended s ≡ s
ended_lem s off = ap (λ b. record s { connected = b }) (sym off)

remove_found-objects :
    (found : Option ℕ) (id : ℕ) (h : Gateway) → (remove_found found id h).objects ≡ h.objects
unfolding remove_found
remove_found-objects none id h = refl
remove_found-objects (some p) id h = (unmap_addr_rest (h.objects p).udp_addr h).0

hung_up-objects :
    (p : ℕ) (g : Gateway) → (hung_up p g).objects ≡ put_object p (ended (g.objects p)) g.objects
unfolding assign
hung_up-objects p g = (hung_up-Agrees p g).objects

-- `Close` changes one session, which is not connected any more; of the others it changes nothing.
pub close-objects :
    (p q : ℕ) (g : Gateway) → (close p g).objects q ≡ put_object p (ended (g.objects p)) g.objects q
unfolding close close_connected remove_session hung_up
close-objects p q g = elim (Bool-cases (g.objects p).connected) [
  | inl on ↦ rw on (
      ap (λ o. o q)
        (remove_found-objects (get_session (hung_up p g) (g.objects p).id) (g.objects p).id
            (hung_up p g)
          ∙ hung_up-objects p g))
  | inr off ↦ rw off (elim (Bool-cases (p == q)) [
    | inl hit ↦
        let same : p ≡ q = (nat_beq_iff p q).0 hit in
        rw hit (sym (ended_lem (g.objects p) off ∙ ap g.objects same))
    | inr miss ↦ rw miss refl
  ])
]

unmap_addr-notices : (addr : Option Bytes) (h : Gateway) → (unmap_addr addr h).notices ≡ h.notices
unfolding unmap_addr
unmap_addr-notices none h = refl
unmap_addr-notices (some a) h = refl

remove_found-notices :
    (found : Option ℕ) (id : ℕ) (h : Gateway) → (remove_found found id h).notices ≡ h.notices
unfolding remove_found
remove_found-notices none id h = refl
remove_found-notices (some p) id h = unmap_addr-notices (h.objects p).udp_addr h

hung_up-notices :
    (p : ℕ) (g : Gateway) → (hung_up p g).notices ≡ g.notices ++ disconnect_req (g.objects p) ∷ []
unfolding hung_up assign close_kcp cancel emit notify
hung_up-notices p g = options_lem (g.objects p).kcp_conn (g.objects p).game_stream
  where
    options_lem :
        (conn stream : Option ℕ)
        → (close_kcp conn (
            emit (ws_close p) (
              notify
                (disconnect_req (g.objects p))
                (cancel stream (assign p (ended (g.objects p)) g))))).notices
          ≡ g.notices ++ disconnect_req (g.objects p) ∷ []
    options_lem none none = refl
    options_lem none (some n) = refl
    options_lem (some c) none = refl
    options_lem (some c) (some n) = refl

-- What a closed session tells the lobby.
pub close-notices :
    (p : ℕ) (g : Gateway)
    → (g.objects p).connected ≡ true
    → (close p g).notices ≡ g.notices ++ disconnect_req (g.objects p) ∷ []
unfolding close close_connected remove_session hung_up
close-notices p g on =
    let s = g.objects p in
    rw on (
      remove_found-notices (get_session (hung_up p g) s.id) s.id (hung_up p g)
      ∙ hung_up-notices p g)

pub close_off : (p : ℕ) (g : Gateway) → (g.objects p).connected ≡ false → close p g ≡ g
unfolding close
close_off p g off = rw off refl

-- Closing a session again does nothing.
pub close-close : (p : ℕ) (g : Gateway) → close p (close p g) ≡ close p g
close-close p g =
    let off : ((close p g).objects p).connected ≡ false =
      ap (λ s. s.connected)
        (close-objects p p g ∙ put_object_self p (ended (g.objects p)) g.objects) in
    close_off p (close p g) off

remove_found-none :
    (o : Option ℕ) (id : ℕ) (g : Gateway)
    → find id g.sessions ≡ o
    → find id (remove_found o id g).sessions ≡ none
unfolding remove_found
remove_found-none none id g e = e
remove_found-none (some p) id g e = find-erase_self id g.sessions

-- A connected session that is closed leaves its id free.
pub close-get_session :
    (p : ℕ) (g : Gateway)
    → (g.objects p).connected ≡ true
    → get_session (close p g) (g.objects p).id ≡ none
unfolding close close_connected hung_up remove_session get_session
close-get_session p g on = rw on (
    remove_found-none (find (g.objects p).id (hung_up p g).sessions) (g.objects p).id (hung_up p g)
      refl)

-- The addresses that lead to a session after a connected one has been closed.
pub close-addr_map :
    (p : ℕ) (addr : Bytes) (g : Gateway)
    → GatewayInv g
    → (g.objects p).connected ≡ true
    → find addr (close p g).addr_map
      ≡ (if is_bound (g.objects p).udp_addr addr then none else find addr g.addr_map)
unfolding close close_connected hung_up remove_session get_session remove_found
close-addr_map p addr g v on =
    let h = hung_up p g in
    let a = hung_up-Agrees p g in
    let s = g.objects p in
    let led : find s.id h.sessions ≡ some p = ap (find s.id) a.sessions ∙ v.found p on in
    let bound : (h.objects p).udp_addr ≡ s.udp_addr =
      ap (λ o. (o p).udp_addr) (hung_up-objects p g)
      ∙ ap (λ x. x.udp_addr) (put_object_self p (ended s) g.objects) in
    let unmapped : find addr (unmap_addr (h.objects p).udp_addr h).addr_map
        ≡ (if is_bound s.udp_addr addr then none else find addr g.addr_map) =
      ap (λ b. find addr (unmap_addr b h).addr_map) bound
      ∙ (unmap_addr-Holds s.udp_addr addr h
          ∙ ap (λ m. if is_bound s.udp_addr addr then none else find addr m) a.addr_map) in
    rw on (rw led unmapped)
