-- ===== src/Gateway/Invariant.antt =====
-- What manager.go keeps true of the sessions: the manager leads to the connected sessions, each
-- under its own id and none else, and an address leads to a session that is bound to it.
use ki_han_server_distribute.Base.{
  ℕ, ◌+◌, ◌<◌, Bool, true, false, Option, none, some, ◌≡◌, ◌≢◌, refl, sym, ap, ◌∙◌, subst, inl, inr,
  arith, if◌then◌else◌, ◌==◌, nat_eq, nat_beq_iff, Bool-cases,
}
use ki_han_server_distribute.Base.Map.{
  Map, find, set, erase, Unique, find-set, find-set_self, find-erase, Unique-set, Unique-erase,
}
use ki_han_server_distribute.Base.Bytes.{Bytes, bytes_eq, bytes_beq, bytes_beq_iff}
use ki_han_server_distribute.Gateway.{Session, Gateway, new_session, new_gateway}

-- The invariant over the fields that it speaks of.
pub record Holds (sessions : Map ℕ ℕ) (addr_map : Map Bytes ℕ) (objects : ℕ → Session)
    (allocated : ℕ) : Type 0 where
  pub unique : Unique sessions
  pub registered :
      (id p : ℕ)
      → find id sessions ≡ some p
      → (p < allocated) × ((objects p).id ≡ id) × ((objects p).connected ≡ true)
  pub found : (p : ℕ) → (objects p).connected ≡ true → find (objects p).id sessions ≡ some p
  pub addressed :
      (addr : Bytes) (id : ℕ)
      → find addr addr_map ≡ some id
      → (p : ℕ) × (find id sessions ≡ some p) × ((objects p).udp_addr ≡ some addr)

abbrev pub GatewayInv : Gateway → Type 0
GatewayInv g = Holds g.sessions g.addr_map g.objects g.allocated

pub new_gateway-GatewayInv : GatewayInv new_gateway
unfolding new_gateway new_session find
new_gateway-GatewayInv = record {
  unique = tt;
  registered = λ id p e. cc;
  found = λ p e. cc;
  addressed = λ addr id e. cc;
}

-- A change of an object that keeps its id, its address and whether it is connected.
pub record Keeps (s s' : Session) : Type 0 where
  pub id : s'.id ≡ s.id
  pub udp_addr : s'.udp_addr ≡ s.udp_addr
  pub connected : s'.connected ≡ s.connected

abbrev pub put_object : ℕ → Session → (ℕ → Session) → ℕ → Session
put_object p s objects q = if p == q then s else objects q

pub differ : (a b : ℕ) → a ≢ b → (a == b) ≡ false
differ a b ne = ground (arith, nat_beq_iff a b)

-- Whether an address is the one that a session is bound to.
abbrev pub is_bound : Option Bytes → Bytes → Bool
is_bound none a = false
is_bound (some addr) a = addr == a

pub put_object_self : (p : ℕ) (s : Session) (objects : ℕ → Session) → put_object p s objects p ≡ s
put_object_self p s objects = ground (arith, nat_beq_iff p p)

put_object-Keeps :
    (p q : ℕ) (s : Session) (objects : ℕ → Session)
    → Keeps (objects p) s
    → Keeps (objects q) (put_object p s objects q)
put_object-Keeps p q s objects k = elim (Bool-cases (p == q)) [
  | inl hit ↦ let e : p ≡ q = (nat_beq_iff p q).0 hit in rw hit (rw e at k)
  | inr miss ↦ rw miss (record { id = refl; udp_addr = refl; connected = refl })
]

module _ {sessions : Map ℕ ℕ} {addr_map : Map Bytes ℕ} {objects : ℕ → Session} {allocated : ℕ}
    (v : Holds sessions addr_map objects allocated) where
  pub Holds-keep :
      (p : ℕ) (s : Session)
      → Keeps (objects p) s
      → Holds sessions addr_map (put_object p s objects) allocated
  Holds-keep p s k = record {
    unique = v.unique;
    registered = λ id q e.
        let (below, named, on) = v.registered id q e in
        let kq = put_object-Keeps p q s objects k in (below, kq.id ∙ named, kq.connected ∙ on);
    found = λ q on.
        let kq = put_object-Keeps p q s objects k in rw kq.id (v.found q (sym kq.connected ∙ on));
    addressed = λ addr id e.
        let (q, led, bound) = v.addressed addr id e in
        let kq = put_object-Keeps p q s objects k in (q, led, kq.udp_addr ∙ bound);
  }

  -- The first datagram of a session.
  pub Holds-bind :
      (p id : ℕ) (addr : Bytes)
      → find id sessions ≡ some p
      → (objects p).udp_addr ≡ none
      → Holds sessions
          (set addr id addr_map)
          (put_object p (record (objects p) { udp_addr = some addr }) objects)
          allocated
  Holds-bind p id addr led free = record {
    unique = v.unique;
    registered = λ j q e. ground (arith, v.registered j q, nat_beq_iff p q);
    found = λ q on. ground (arith, v.found q, v.found p, nat_beq_iff p q);
    addressed = λ a j e. elim (Bool-cases (bytes_beq addr a)) [
      | inl hit ↦
          let same : id ≡ j = ground (arith, find-set addr a id addr_map) in
          let here : addr ≡ a = (bytes_beq_iff addr a).0 hit in
          (
            p,
            rw (← same) led,
            rw (put_object_self p (record (objects p) { udp_addr = some addr }) objects, here),
          )
      | inr miss ↦
          let (q, led', bound) = v.addressed a j (ground (arith, find-set addr a id addr_map)) in
          (q, led', ground (arith, nat_beq_iff p q))
    ];
  }

  -- A new session, under an id that is not in use.
  pub Holds-insert :
      (id key uid : ℕ) (token : Bytes)
      → find id sessions ≡ none
      → Holds
          (set id allocated sessions)
          addr_map
          (put_object allocated (new_session id key token uid) objects)
          (allocated + 1)
  unfolding new_session
  Holds-insert id key uid token fresh = record {
    unique = Unique-set id allocated sessions v.unique;
    registered = λ j q e. ground (
      arith,
      v.registered j q,
      find-set id j allocated sessions,
      nat_beq_iff allocated q,
      nat_beq_iff id j,
    );
    found = λ q on. elim (Bool-cases (allocated == q)) [
      | inl hit ↦
          let same : allocated ≡ q = (nat_beq_iff allocated q).0 hit in
          rw hit (find-set_self id allocated sessions ∙ ap some same)
      | inr miss ↦
          let led : find (objects q).id sessions ≡ some q = v.found q (rw miss at on) in
          rw miss (
            ground
              (arith, find-set id (objects q).id allocated sessions, nat_beq_iff id (objects q).id))
    ];
    addressed = λ a j e.
        let (q, led, bound) = v.addressed a j e in
        let (below, named, on) = v.registered j q led in
        (
          q,
          ground (arith, find-set id j allocated sessions, nat_beq_iff id j),
          ground (arith, nat_beq_iff allocated q),
        );
  }

  led_still :
      (p : ℕ)
      → (objects p).connected ≡ true
      → (j q : ℕ) → (p == q) ≡ false
      → find j sessions ≡ some q
      → find j (erase (objects p).id sessions) ≡ some q
  led_still p on j q other led =
      let ne : ((objects p).id == j) ≡ false = differ (objects p).id j λ (h : (objects p).id ≡ j).
        let led_p : find j sessions ≡ some p = rw (← h) (v.found p on) in
        ground (arith, nat_beq_iff p q) in
      ground (arith, find-erase (objects p).id j sessions)

  -- A session that is closed leaves the manager, with the address that it is bound to.
  pub Holds-remove :
      (p : ℕ) (addr_map' : Map Bytes ℕ)
      → (objects p).connected ≡ true
      → ((a : Bytes)
          → find a addr_map' ≡ (if is_bound (objects p).udp_addr a then none else find a addr_map))
      → Holds
          (erase (objects p).id sessions)
          addr_map'
          (put_object p (record (objects p) { connected = false }) objects)
          allocated
  Holds-remove p addr_map' on unmapped = record {
    unique = Unique-erase (objects p).id sessions v.unique;
    registered = λ j q e.
        let same = find-erase (objects p).id j sessions in
        let led : find j sessions ≡ some q = ground (arith, same) in
        let (below, named, here) = v.registered j q led in
        let other : (p == q) ≡ false = differ p q λ (h : p ≡ q).
          ground (arith, same, nat_beq_iff (objects p).id j, ap (λ x. (objects x).id) h) in
        (below, rw other named, rw other here);
    found = λ q here.
        let other : (p == q) ≡ false = differ p q λ (h : p ≡ q). ground (arith, nat_beq_iff p q) in
        let led : find (objects q).id sessions ≡ some q = v.found q (rw other at here) in
        rw other (led_still p on (objects q).id q other led);
    addressed = λ a j e.
        let free : is_bound (objects p).udp_addr a ≡ false = ground (arith, unmapped a) in
        let (q, led, bound) = v.addressed a j (ground (arith, unmapped a)) in
        let other : (p == q) ≡ false = differ p q λ (h : p ≡ q).
          let bound_too : (objects p).udp_addr ≡ some a =
            ap (λ x. (objects x).udp_addr) h ∙ bound in
          let free_too : is_bound (some a) a ≡ false =
            subst (λ x. is_bound x a ≡ false) bound_too free in
          ground (arith, bytes_beq_iff a a, free_too) in
        (q, led_still p on j q other led, rw other bound);
  }
