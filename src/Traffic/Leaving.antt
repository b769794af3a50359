-- ===== src/Traffic/Leaving.antt =====
-- Which rounds of the gateway's loops close at most one session, and what that does to the others.
use ki_han_server_distribute.Base.{
  ℕ, Bool, true, false, Option, none, some, ◌≡◌, refl, sym, ap, ◌∙◌, inl, inr, arith, if◌then◌else◌,
  ◌==◌, not, ◌&&◌, nat_eq, nat_beq_iff, Bool-cases, ◌⊎◌, ltb, leb, length, drop,
}
use ki_han_server_distribute.Base.Map.{find}
use ki_han_server_distribute.Base.Bytes.{Bytes}
use ki_han_server_distribute.Proto.{GatewayResponse}
use ki_han_server_distribute.Packet.{uint16_at, read_app_frame}
use ki_han_server_distribute.Gateway.{
  Session, Gateway, send, close, kick_if, deliver, out_frame, get_session,
}
use ki_han_server_distribute.Gateway.Invariant.{GatewayInv, put_object, differ}
use ki_han_server_distribute.Gateway.Closing.{ended}
use ki_han_server_distribute.Gateway.Closed.{close-objects, close_off}
use ki_han_server_distribute.Traffic.{
  Backend, request_of, answered, push_found, on_push, dispatch_packet, ws_message, kcp_read,
  kcp_message,
}
use ki_han_server_distribute.Traffic.Registry.{Thins}
use ki_han_server_distribute.Traffic.Quiet.{
  Still, Still-same, SendStill, send-SendStill, route_game-Still, set_kcp_conn-Still,
}

-- The sessions that stay when one id is given up.
abbrev pub but : ℕ → ℕ → ℕ → Bytes → Bool
but id j uid token = not (id == j)

-- What a round leaves, where it does not panic.
unfoldable pub Outcome : Gateway → Option Gateway → Type 0
Outcome g none = Unit
Outcome g (some h) = Still g.objects h.objects ⊎ ((id : ℕ) × Thins (but id) g h)

-- Connected sessions with one id are one session.
one_session :
    (g : Gateway) (p q : ℕ)
    → GatewayInv g
    → (g.objects p).connected ≡ true
    → (g.objects q).connected ≡ true
    → ((g.objects p).id == (g.objects q).id) ≡ (p == q)
one_session g p q v on on' =
    let led = v.found p on in
    let led' = v.found q on' in
    elim (Bool-cases ((g.objects p).id == (g.objects q).id)) [
      | inl hit ↦
          let same : (g.objects p).id ≡ (g.objects q).id =
            (nat_beq_iff (g.objects p).id (g.objects q).id).0 hit in
          let both : some p ≡ some q = sym led ∙ (ap (λ i. find i g.sessions) same ∙ led') in
          let one : p ≡ q = cc in hit ∙ sym ((nat_beq_iff p q).1 one)
      | inr miss ↦
          let other : (p == q) ≡ false = differ p q λ (h : p ≡ q).
            let hit =
              (nat_beq_iff (g.objects p).id (g.objects q).id).1 (ap (λ x. (g.objects x).id) h) in
            cc in
          miss ∙ sym other
    ]

-- The fields of a session that is or is not the closed one.
put_ended :
    (p q : ℕ) (o : ℕ → Session)
    → let s = put_object p (ended (o p)) o q in
      (s.id ≡ (o q).id)
      × (s.uid ≡ (o q).uid)
      × (s.token ≡ (o q).token)
      × (s.connected ≡ (if p == q then false else (o q).connected))
put_ended p q o = elim (Bool-cases (p == q)) [
  | inl hit ↦
      let same : p ≡ q = (nat_beq_iff p q).0 hit in
      rw hit (ap (λ x. (o x).id) same, ap (λ x. (o x).uid) same, ap (λ x. (o x).token) same, refl)
  | inr miss ↦ rw miss (refl, refl, refl, refl)
]

pub close-Thins :
    (p : ℕ) (g k : Gateway)
    → GatewayInv g
    → k.objects ≡ g.objects
    → (g.objects p).connected ≡ true
    → Thins (but (g.objects p).id) g (close p k)
close-Thins p g k v e on = record {
  id = λ q. ap (λ s. s.id) (after q) ∙ (put_ended p q g.objects).0;
  uid = λ q. ap (λ s. s.uid) (after q) ∙ (put_ended p q g.objects).1;
  token = λ q. ap (λ s. s.token) (after q) ∙ (put_ended p q g.objects).2;
  connected = λ q.
      ap (λ s. s.connected) (after q)
      ∙ ((put_ended p q g.objects).3 ∙ elim (Bool-cases (g.objects q).connected) [
        | inl on' ↦ rw (on', one_session g p q v on on') (ground arith)
        | inr off ↦ rw off (ground arith)
      ]);
}
  where
    after : (q : ℕ) → (close p k).objects q ≡ put_object p (ended (g.objects p)) g.objects q
    after q = close-objects p q k ∙ ap (λ o. put_object p (ended (o p)) o q) e

pub close-Outcome :
    (p : ℕ) (g k : Gateway) → GatewayInv g → k.objects ≡ g.objects → Outcome g (some (close p k))
unfolding Outcome
close-Outcome p g k v e = elim (Bool-cases (g.objects p).connected) [
  | inl on ↦ inr ((g.objects p).id, close-Thins p g k v e on)
  | inr off ↦
      let off' : (k.objects p).connected ≡ false = ap (λ o. (o p).connected) e ∙ off in
      inl (Still-same _ _ (ap (λ x. x.objects) (close_off p k off') ∙ e))
]

pub deliver-Outcome :
    (p channel : ℕ) (r : GatewayResponse) (g : Gateway)
    → GatewayInv g
    → Outcome g (deliver p channel r g)
unfolding deliver kick_if SendStill Outcome
deliver-Outcome p channel r g v =
    sent_lem r.kick_client (send p channel (out_frame r) g)
      (send-SendStill p channel (out_frame r) g)
  where
    sent_lem :
        (kick : Bool) (sent : Option Gateway) → SendStill g sent → Outcome g (kick_if kick p sent)
    sent_lem kick none e = tt
    sent_lem true (some k) e = close-Outcome p g k v e
    sent_lem false (some k) e = inl (Still-same _ _ e)

answered-Outcome :
    (p : ℕ) (r : Option GatewayResponse) (g : Gateway) → GatewayInv g → Outcome g (answered p r g)
unfolding answered Outcome
answered-Outcome p none g v = inl (Still-same _ _ refl)
answered-Outcome p (some r) g v = deliver-Outcome p 1 r g v

pub on_push-Outcome : (r : GatewayResponse) (g : Gateway) → GatewayInv g → Outcome g (on_push r g)
unfolding on_push push_found Outcome
on_push-Outcome r g v = found_lem (get_session g r.conn_id)
  where
    found_lem : (p : Option ℕ) → Outcome g (push_found p r g)
    found_lem none = inl (Still-same _ _ refl)
    found_lem (some p) = deliver-Outcome p 0 r g v

module _ ⦃be : Backend⦄ where
  dispatch_packet-Outcome :
      (opens : Bool) (p cmd_id : ℕ) (payload : Bytes) (s : be.Server) (g : Gateway)
      → GatewayInv g
      → Outcome g (dispatch_packet opens p cmd_id payload s g).1
  unfolding dispatch_packet Outcome
  dispatch_packet-Outcome opens p cmd_id payload s g v =
      let req = request_of (g.objects p) cmd_id payload in
      elim (Bool-cases (ltb cmd_id 2000)) [
        | inl lobby ↦ rw lobby (answered-Outcome p (be.handle_request s req).1 g v)
        | inr game ↦ rw game (inl (route_game-Still opens p (g.objects p).game_stream req g))
      ]

  pub ws_message-Outcome :
      (opens : Bool) (p : ℕ) (binary : Bool) (bytes : Bytes) (s : be.Server) (g : Gateway)
      → GatewayInv g
      → Outcome g (ws_message opens p binary bytes s g).1
  unfolding ws_message Outcome
  ws_message-Outcome opens p binary bytes s g v =
      elim (Bool-cases (binary && leb 2 (length bytes))) [
        | inl whole ↦
            rw whole (dispatch_packet-Outcome opens p (uint16_at bytes) (drop 2 bytes) s g v)
        | inr other ↦ rw other (inl (Still-same _ _ refl))
      ]

  pub kcp_message-Outcome :
      (opens : Bool) (p : ℕ) (stream : Bytes) (s : be.Server) (g : Gateway)
      → GatewayInv g
      → Outcome g (kcp_message opens p stream s g).1
  unfolding kcp_message kcp_read Outcome
  kcp_message-Outcome opens p stream s g v = read_lem (read_app_frame stream)
    where
      read_lem : (r : Option ((ℕ × Bytes) × Bytes)) → Outcome g (kcp_read opens p r s g).1
      read_lem none = inl (set_kcp_conn-Still p none g)
      read_lem (some ((cmd_id, payload), rest)) =
          dispatch_packet-Outcome opens p cmd_id payload s g v
