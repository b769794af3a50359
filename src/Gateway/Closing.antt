-- ===== src/Gateway/Closing.antt =====
-- What `Close` of session.go and `RemoveSession` of manager.go do to the sessions.
use ki_han_server_distribute.Base.{
  ℕ, true, false, Option, none, some, ◌≡◌, refl, sym, ap, ◌∙◌, subst, inl, inr, if◌then◌else◌,
  nat_eq, Bool-cases,
}
use ki_han_server_distribute.Base.Map.{Map, find, erase, find-erase}
use ki_han_server_distribute.Base.Bytes.{Bytes, bytes_eq}
use ki_han_server_distribute.Gateway.{
  Session, Gateway, ws_close, assign, emit, remove_session, remove_found, unmap_addr, get_session,
  cancel, close_kcp, notify, disconnect_req, close_connected, close,
}
use ki_han_server_distribute.Gateway.Invariant.{
  GatewayInv, Holds, Holds-remove, put_object_self, is_bound,
}

-- The sessions of two gateways are the same, whatever they sent.
pub record Agrees (g h : Gateway) : Type 0 where
  pub sessions : h.sessions ≡ g.sessions
  pub addr_map : h.addr_map ≡ g.addr_map
  pub objects : h.objects ≡ g.objects
  pub allocated : h.allocated ≡ g.allocated

pub Agrees-trans : {g h k : Gateway} → Agrees g h → Agrees h k → Agrees g k
Agrees-trans a b = record {
  sessions = b.sessions ∙ a.sessions;
  addr_map = b.addr_map ∙ a.addr_map;
  objects = b.objects ∙ a.objects;
  allocated = b.allocated ∙ a.allocated;
}

pub Agrees-refl : (g : Gateway) → Agrees g g
Agrees-refl g = record { sessions = refl; addr_map = refl; objects = refl; allocated = refl }

cancel-Agrees : (stream : Option ℕ) (g : Gateway) → Agrees g (cancel stream g)
unfolding cancel emit
cancel-Agrees none g = Agrees-refl g
cancel-Agrees (some n) g = record {
  sessions = refl;
  addr_map = refl;
  objects = refl;
  allocated = refl;
}

close_kcp-Agrees : (conn : Option ℕ) (g : Gateway) → Agrees g (close_kcp conn g)
unfolding close_kcp emit
close_kcp-Agrees none g = Agrees-refl g
close_kcp-Agrees (some n) g = record {
  sessions = refl;
  addr_map = refl;
  objects = refl;
  allocated = refl;
}

notify-Agrees :
    (p : ℕ) (s : Session) (g : Gateway) → Agrees g (emit (ws_close p) (notify (disconnect_req s) g))
unfolding emit notify
notify-Agrees p s g = record { sessions = refl; addr_map = refl; objects = refl; allocated = refl }

pub Agrees-GatewayInv : {g h : Gateway} → Agrees g h → GatewayInv g → GatewayInv h
Agrees-GatewayInv a v = rw (a.sessions, a.addr_map, a.objects, a.allocated) v

-- What a closed session is.
abbrev pub ended : Session → Session
ended s = record s { connected = false }

-- All that `Close` does before the session leaves the manager.
unfoldable pub hung_up : ℕ → Gateway → Gateway
hung_up p g =
    let s = g.objects p in
    close_kcp s.kcp_conn
      (emit (ws_close p) (notify (disconnect_req s) (cancel s.game_stream (assign p (ended s) g))))

pub hung_up-Agrees : (p : ℕ) (g : Gateway) → Agrees (assign p (ended (g.objects p)) g) (hung_up p g)
unfolding hung_up
hung_up-Agrees p g =
    let s = g.objects p in
    Agrees-trans (cancel-Agrees s.game_stream _)
      (Agrees-trans (notify-Agrees p s _) (close_kcp-Agrees s.kcp_conn _))

pub unmap_addr-Holds :
    (addr : Option Bytes) (a : Bytes) (g : Gateway)
    → find a (unmap_addr addr g).addr_map ≡ (if is_bound addr a then none else find a g.addr_map)
unfolding unmap_addr
unmap_addr-Holds none a g = refl
unmap_addr-Holds (some addr) a g = find-erase addr a g.addr_map

pub unmap_addr_rest :
    (addr : Option Bytes) (g : Gateway)
    → ((unmap_addr addr g).objects ≡ g.objects) × ((unmap_addr addr g).allocated ≡ g.allocated)
unfolding unmap_addr
unmap_addr_rest none g = (refl, refl)
unmap_addr_rest (some addr) g = (refl, refl)

Holds-cong :
    {sessions sessions' : Map ℕ ℕ} {addr_map : Map Bytes ℕ} {objects objects' : ℕ → Session}
    {n n' : ℕ}
    → sessions ≡ sessions'
    → objects ≡ objects'
    → n ≡ n'
    → Holds sessions addr_map objects n
    → Holds sessions' addr_map objects' n'
Holds-cong a b c v = rw (← a, ← b, ← c) v

-- A connected session that has hung up is removed from a gateway that holds the invariant.
removed :
    (p : ℕ) (g h : Gateway)
    → GatewayInv g
    → (g.objects p).connected ≡ true
    → Agrees (assign p (ended (g.objects p)) g) h
    → GatewayInv (remove_session (g.objects p).id h)
unfolding remove_session get_session remove_found assign
removed p g h v on a =
    let led : find (g.objects p).id h.sessions ≡ some p =
      ap (find (g.objects p).id) a.sessions ∙ v.found p on in
    let s' : h.objects p ≡ ended (g.objects p) =
      ap (λ o. o p) a.objects ∙ put_object_self p (ended (g.objects p)) g.objects in
    let bound : (h.objects p).udp_addr ≡ (g.objects p).udp_addr = ap (λ s. s.udp_addr) s' in
    let (objects, allocated) = unmap_addr_rest (g.objects p).udp_addr h in
    rw (led, bound)
      (Holds-cong (ap (erase (g.objects p).id) (sym a.sessions)) (sym a.objects ∙ sym objects)
        (sym a.allocated ∙ sym allocated)
        (Holds-remove v p (unmap_addr (g.objects p).udp_addr h).addr_map on λ addr.
          subst
            (λ m.
              find addr (unmap_addr (g.objects p).udp_addr h).addr_map
              ≡ (if is_bound (g.objects p).udp_addr addr then none else find addr m))
            a.addr_map (unmap_addr-Holds (g.objects p).udp_addr addr h)))

pub close-GatewayInv : (p : ℕ) (g : Gateway) → GatewayInv g → GatewayInv (close p g)
unfolding close close_connected hung_up
close-GatewayInv p g v = elim (Bool-cases (g.objects p).connected) [
  | inl on ↦ rw on (removed p g (hung_up p g) v on (hung_up-Agrees p g))
  | inr off ↦ rw off v
]
