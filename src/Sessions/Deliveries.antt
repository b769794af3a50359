-- ===== src/Sessions/Deliveries.antt =====
-- What a broadcast writes, and what the reader of one stream sees of the log.
use mathlib.Core.List.{append-nil, append_assoc}
use ki_han_server_distribute.Base.{
  ℕ, true, false, Option, none, some, List, [], ◌∷◌, ◌++◌, ◌≡◌, ◌≢◌, refl, arith, ◌==◌, nat_eq,
  nat_beq_iff, if◌then◌else◌, elem, Distinct, Bool-cases, Option-cases, inl, inr,
}
use ki_han_server_distribute.Base.Map.{Map, find}
use ki_han_server_distribute.Base.Bytes.{Bytes}
use ki_han_server_distribute.Proto.{GatewayResponse}
use ki_han_server_distribute.Sessions.{
  Session, Sessions, Write, response, send_if, send_to_players, send,
}

abbrev delivery : Option Session → ℕ → Bytes → List Write
delivery none cmd_id payload = []
delivery (some s) cmd_id payload = response s cmd_id payload ∷ []

-- One write for each uid that has a session, in the order of the uids.
unfoldable pub deliveries : Map ℕ Session → List ℕ → ℕ → Bytes → List Write
deliveries table [] cmd_id payload = []
deliveries table (uid ∷ uids) cmd_id payload =
    delivery (find uid table) cmd_id payload ++ deliveries table uids cmd_id payload

send_if_sent :
    (o : Option Session) (cmd_id : ℕ) (payload : Bytes) (n : Sessions)
    → send_if o cmd_id payload n ≡ record n { sent = n.sent ++ delivery o cmd_id payload }
unfolding send_if send
send_if_sent none cmd_id payload n = rw append-nil
send_if_sent (some s) cmd_id payload n = refl

-- A broadcast appends its deliveries to the log, and leaves the session table alone.
pub send_to_players-deliveries :
    (uids : List ℕ) (cmd_id : ℕ) (payload : Bytes) (n : Sessions)
    → send_to_players uids cmd_id payload n
      ≡ record n { sent = n.sent ++ deliveries n.sessions uids cmd_id payload }
unfolding send_to_players deliveries
send_to_players-deliveries [] cmd_id payload n = rw append-nil
send_to_players-deliveries (uid ∷ uids) cmd_id payload n = rw (
  send_if_sent (find uid n.sessions) cmd_id payload n,
  send_to_players-deliveries uids cmd_id payload,
  append_assoc,
)

-- The responses that were written on one stream, oldest first.
unfoldable pub received : ℕ → List Write → List GatewayResponse
received stream [] = []
received stream (w ∷ ws) =
    let rest = received stream ws in if w.stream == stream then w.response ∷ rest else rest

pub received-append :
    (stream : ℕ) (xs ys : List Write)
    → received stream (xs ++ ys) ≡ received stream xs ++ received stream ys
unfolding received
received-append stream [] ys = refl
received-append stream (x ∷ xs) ys = ground (arith, received-append stream xs ys)

-- No other player's session is bound to the stream.
abbrev pub Alone : Map ℕ Session → ℕ → ℕ → Type 0
Alone table uid stream = (v : ℕ) (s : Session) → find v table ≡ some s → v ≢ uid → s.stream ≢ stream

module _ (table : Map ℕ Session) (uid : ℕ) (s : Session) (cmd_id : ℕ) (payload : Bytes)
    (bound : find uid table ≡ some s) (alone : Alone table uid s.stream) where
  received-delivery_ne :
      (v : ℕ) → v ≢ uid → received s.stream (delivery (find v table) cmd_id payload) ≡ []
  unfolding received response
  received-delivery_ne v ne = elim (Option-cases (find v table)) [
    | inl e ↦ rw e
    | inr (s', e) ↦ rw e (ground (arith, alone v s' e ne))
  ]

  received-deliveries_none :
      (uids : List ℕ)
      → elem uid uids ≡ false
      → received s.stream (deliveries table uids cmd_id payload) ≡ []
  unfolding elem deliveries
  received-deliveries_none [] out = unfold received in refl
  received-deliveries_none (v ∷ vs) out = ground (
    arith,
    received-append s.stream (delivery (find v table) cmd_id payload)
        (deliveries table vs cmd_id payload),
    received-delivery_ne v,
    received-deliveries_none vs,
    nat_beq_iff v uid,
  )

  received-delivery_self :
      received s.stream (delivery (find uid table) cmd_id payload)
      ≡ (response s cmd_id payload).response ∷ []
  unfolding received response
  received-delivery_self = rw bound (ground (arith, nat_beq_iff s.stream s.stream))

  -- A listed player's stream gets the message once, under the connection of its session.
  pub received-deliveries :
      (uids : List ℕ)
      → Distinct uids
      → elem uid uids ≡ true
      → received s.stream (deliveries table uids cmd_id payload)
        ≡ (response s cmd_id payload).response ∷ []
  unfolding elem deliveries
  received-deliveries [] d listed = cc
  received-deliveries (v ∷ vs) d listed =
      let joined =
        received-append s.stream (delivery (find v table) cmd_id payload)
          (deliveries table vs cmd_id payload) in
      elim (Bool-cases (v == uid)) [
        | inl hit ↦
            let e : v ≡ uid = (nat_beq_iff v uid).0 hit in
            rw (joined, e, received-delivery_self, received-deliveries_none vs (rw e at d.0))
        | inr miss ↦
            rw (joined, received-delivery_ne v (λ e. ground (arith, nat_beq_iff v uid)))
              (received-deliveries vs d.1 (ground arith))
      ]
