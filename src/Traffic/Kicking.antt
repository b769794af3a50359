-- ===== src/Traffic/Kicking.antt =====
-- The kick loop of gateway/main.go: which sessions a message of the login server closes.
use ki_han_server_distribute.Base.{
  ℕ, Bool, true, false, some, List, [], ◌∷◌, ◌≡◌, ap, ◌∙◌, inl, inr, arith, if◌then◌else◌, ◌==◌,
  ◌&&◌, not, nat_eq, nat_beq_iff, elem, ==_refl, ◌||◌, Bool-cases,
}
use ki_han_server_distribute.Base.Map.{Map, find}
use ki_han_server_distribute.Base.Bytes.{Bytes, bytes_eq}
use ki_han_server_distribute.Gateway.{Session, Gateway, sessions_of, get_sessions_by_uid, close}
use ki_han_server_distribute.Gateway.Invariant.{GatewayInv}
use ki_han_server_distribute.Gateway.Closed.{close-objects}
use ki_han_server_distribute.Traffic.{kick_all, on_kick}

-- What the loop over some sessions does to one session.
abbrev pub dropped : Bool → Bytes → Session → Session
dropped listed new_token s = record s {
  connected = s.connected && not (listed && not (s.token == new_token));
}

connected_lem : (s : Session) (b : Bool) → s.connected ≡ b → s ≡ record s { connected = b }
connected_lem s b e = ap (λ c. record s { connected = c }) e

kick_one :
    (p q : ℕ) (new_token : Bytes) (g : Gateway)
    → (if not ((g.objects p).token == new_token) then close p g else g).objects q
      ≡ dropped (p == q) new_token (g.objects q)
kick_one p q new_token g = elim (Bool-cases ((g.objects p).token == new_token)) [
  | inl own ↦ rw own (elim (Bool-cases (p == q)) [
    | inl hit ↦
        let same : p ≡ q = (nat_beq_iff p q).0 hit in
        let own' : ((g.objects q).token == new_token) ≡ true = rw same at own in
        rw (hit, own') (connected_lem (g.objects q) _ (ground arith))
    | inr miss ↦ rw miss (connected_lem (g.objects q) _ (ground arith))
  ])
  | inr old ↦ rw old (
      close-objects p q g ∙ elim (Bool-cases (p == q)) [
        | inl hit ↦
            let same : p ≡ q = (nat_beq_iff p q).0 hit in
            let old' : ((g.objects q).token == new_token) ≡ false = rw same at old in
            rw (hit, same, old') (ap (λ c. record (g.objects q) { connected = c }) (ground arith))
        | inr miss ↦ rw miss (connected_lem (g.objects q) _ (ground arith))
      ])
]

dropped-dropped :
    (a b : Bool) (new_token : Bytes) (s : Session)
    → dropped b new_token (dropped a new_token s) ≡ dropped (a || b) new_token s
dropped-dropped a b new_token s = ap (λ c. record s { connected = c }) (ground arith)

kick_all-objects :
    (ps : List ℕ) (new_token : Bytes) (g : Gateway) (q : ℕ)
    → (kick_all ps new_token g).objects q ≡ dropped (elem q ps) new_token (g.objects q)
unfolding kick_all elem
kick_all-objects [] new_token g q = connected_lem (g.objects q) _ (ground arith)
kick_all-objects (p ∷ ps) new_token g q =
    kick_all-objects ps new_token (if not ((g.objects p).token == new_token) then close p g else g)
      q
    ∙ (ap (dropped (elem q ps) new_token) (kick_one p q new_token g)
        ∙ dropped-dropped (p == q) (elem q ps) new_token (g.objects q))

elem-sessions_of :
    (uid id q : ℕ) (sessions : Map ℕ ℕ) (objects : ℕ → Session)
    → find id sessions ≡ some q
    → (objects q).uid ≡ uid
    → elem q (sessions_of uid sessions objects) ≡ true
unfolding sessions_of elem find
elem-sessions_of uid id q [] objects led mine = cc
elem-sessions_of uid id q ((j, p) ∷ sessions) objects led mine = ground (
  arith,
  elem-sessions_of uid id q sessions objects,
  nat_beq_iff p q,
  nat_beq_iff (objects q).uid uid,
  ==_refl q,
  ==_refl (objects q).uid,
)

sessions_of-uid :
    (uid q : ℕ) (sessions : Map ℕ ℕ) (objects : ℕ → Session)
    → elem q (sessions_of uid sessions objects) ≡ true
    → (objects q).uid ≡ uid
unfolding sessions_of elem
sessions_of-uid uid q [] objects listed = cc
sessions_of-uid uid q ((j, p) ∷ sessions) objects listed = ground (
  arith,
  sessions_of-uid uid q sessions objects,
  nat_beq_iff p q,
  nat_beq_iff (objects p).uid uid,
  ap (λ x. (objects x).uid) {x = p} {y = q},
)

-- Where the invariant holds, a kick for a uid and its new token changes no session but that those
-- of the uid with another token are not connected any more.
pub on_kick-objects :
    (uid : ℕ) (new_token : Bytes) (g : Gateway) (q : ℕ)
    → GatewayInv g
    → (on_kick (some (uid, new_token)) g).objects q
      ≡ dropped ((g.objects q).uid == uid) new_token (g.objects q)
unfolding on_kick get_sessions_by_uid
on_kick-objects uid new_token g q v =
    let s = g.objects q in
    kick_all-objects (get_sessions_by_uid uid g) new_token g q ∙ elim (Bool-cases s.connected) [
      | inl on ↦
          ap (λ listed. dropped listed new_token s)
            (ground (
              arith,
              elem-sessions_of uid s.id q g.sessions g.objects (v.found q on),
              sessions_of-uid uid q g.sessions g.objects,
              nat_beq_iff s.uid uid,
            ))
      | inr off ↦ ap (λ c. record s { connected = c }) (ground arith)
    ]
