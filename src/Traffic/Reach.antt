-- ===== src/Traffic/Reach.antt =====
-- The gateway of gateway/main.go as a whole: the rounds of its loops as steps, in any order, and
-- what they keep true. A round is one step; what the code does between two locks is not
-- interleaved with other rounds.
use ki_han_server_distribute.Base.{
  ℕ, Bool, Option, none, some, List, [], ◌∷◌, ◌++◌, ◌≡◌, subst, arith, ltb, leb, ◌&&◌, length, drop,
  Bool-cases, inl, inr,
}
use ki_han_server_distribute.Base.Bytes.{Bytes}
use ki_han_server_distribute.Proto.{GatewayRequest, GatewayResponse}
use ki_han_server_distribute.Packet.{uint16_at, read_app_frame}
use ki_han_server_distribute.Gateway.{Gateway, new_gateway, close}
use ki_han_server_distribute.Gateway.Invariant.{GatewayInv, new_gateway-GatewayInv}
use ki_han_server_distribute.Gateway.Closing.{close-GatewayInv}
use ki_han_server_distribute.Traffic.{
  Backend, Front, Chances, Joined, request_of, game_stream_recv, read_datagram, read_from, write_to,
  accept_kcp, serve_http, on_kick, on_push, dispatch_packet, ws_message, kcp_read, kcp_message,
}
use ki_han_server_distribute.Traffic.Invariant.{
  Safe, deliver-Safe, answered-Safe, route_game-GatewayInv, set_kcp_conn-GatewayInv,
  read_datagram-GatewayInv, write_to-GatewayInv, accept_kcp-GatewayInv, on_kick-GatewayInv,
  on_push-Safe,
}
use ki_han_server_distribute.Traffic.Joining.{SafeWith, serve_http-Safe}

module _ ⦃be : Backend⦄ where
  -- One round of a loop. A panic is no step: it ends the process.
  pub data Step : be.Server → Gateway → be.Server → Gateway → Type 0 where
    joins :
        {s : be.Server} {g g' : Gateway}
        → (redis_get : Bytes → Option Bytes) (c : Chances) (token : Bytes) (result : Joined)
        → serve_http redis_get c token g ≡ some (g', result)
        → Step s g s g'
    reads_ws :
        {s s' : be.Server} {g g' : Gateway}
        → (opens : Bool) (p : ℕ) (binary : Bool) (bytes : Bytes)
        → ws_message opens p binary bytes s g ≡ (s', some g')
        → Step s g s' g'
    reads_kcp :
        {s s' : be.Server} {g g' : Gateway}
        → (opens : Bool) (p : ℕ) (stream : Bytes) → kcp_message opens p stream s g ≡ (s', some g')
        → Step s g s' g'
    reads_game :
        {s : be.Server} {g g' : Gateway}
        → (p : ℕ) (r : GatewayResponse) → game_stream_recv p r g ≡ some g'
        → Step s g s g'
    reads_datagram :
        {s : be.Server} {g : Gateway} → (addr buf : Bytes) → Step s g s (read_datagram addr buf g)
    takes_packet :
        {s : be.Server} {g g' : Gateway}
        → (size : ℕ) (payload addr : Bytes)
        → read_from size g.read_ch g ≡ some ((payload, addr), g')
        → Step s g s g'
    writes_packet :
        {s : be.Server} {g : Gateway}
        → (addr payload : Bytes) → Step s g s (write_to addr payload g)
    accepts :
        {s : be.Server} {g : Gateway}
        → (conn : ℕ) (addr : Bytes) → Step s g s (accept_kcp conn addr g)
    kicks : {s : be.Server} {g : Gateway} → (msg : Option (ℕ × Bytes)) → Step s g s (on_kick msg g)
    pushes :
        {s : be.Server} {g g' : Gateway}
        → (r : GatewayResponse) → on_push r g ≡ some g'
        → Step s g s g'
    closes : {s : be.Server} {g : Gateway} → (p : ℕ) → Step s g s (close p g)
    notifies :
        {s : be.Server} {g : Gateway}
        → (before after : List GatewayRequest) (req : GatewayRequest)
        → g.notices ≡ before ++ (req ∷ after)
        → Step s g (be.client_disconnect s req) (record g { notices = before ++ after })
    lobby_moves : {s s' : be.Server} {g : Gateway} → be.moves s s' → Step s g s' g

  -- The states of a gateway that was started in front of its lobby.
  pub data Reach : be.Server → Gateway → Type 0 where
    start : {s : be.Server} → be.starts s → Reach s new_gateway
    next : {s s' : be.Server} {g g' : Gateway} → Reach s g → Step s g s' g' → Reach s' g'

  -- The sessions of a front that did not panic hold the invariant.
  SafeFront : Front → Type 0
  SafeFront (s, r) = Safe r

  dispatch_packet-SafeFront :
      (opens : Bool) (p cmd_id : ℕ) (payload : Bytes) (s : be.Server) (g : Gateway)
      → GatewayInv g
      → SafeFront (dispatch_packet opens p cmd_id payload s g)
  unfolding dispatch_packet SafeFront Safe
  dispatch_packet-SafeFront opens p cmd_id payload s g v =
      let req = request_of (g.objects p) cmd_id payload in
      ground (
        arith,
        answered-Safe p (be.handle_request s req).1 g v,
        route_game-GatewayInv opens p (g.objects p).game_stream req g v,
      )

  ws_message-SafeFront :
      (opens : Bool) (p : ℕ) (binary : Bool) (bytes : Bytes) (s : be.Server) (g : Gateway)
      → GatewayInv g
      → SafeFront (ws_message opens p binary bytes s g)
  unfolding ws_message SafeFront Safe
  ws_message-SafeFront opens p binary bytes s g v =
      ground (arith, dispatch_packet-SafeFront opens p (uint16_at bytes) (drop 2 bytes) s g v)

  kcp_message-SafeFront :
      (opens : Bool) (p : ℕ) (stream : Bytes) (s : be.Server) (g : Gateway)
      → GatewayInv g
      → SafeFront (kcp_message opens p stream s g)
  unfolding kcp_message kcp_read SafeFront Safe
  kcp_message-SafeFront opens p stream s g v = read_lem (read_app_frame stream)
    where
      read_lem : (r : Option ((ℕ × Bytes) × Bytes)) → SafeFront (kcp_read opens p r s g)
      read_lem none = set_kcp_conn-GatewayInv p none g v
      read_lem (some ((cmd_id, payload), rest)) =
          dispatch_packet-SafeFront opens p cmd_id payload s g v

  abbrev SafeAfter : {A : Type 0} → Option (A × Gateway) → Type 0
  SafeAfter none = Unit
  SafeAfter (some (a, g)) = GatewayInv g

  read_from-SafeAfter :
      (size : ℕ) (queue : List (Bytes × Bytes)) (g : Gateway)
      → GatewayInv g
      → SafeAfter (read_from size queue g)
  unfolding read_from
  read_from-SafeAfter size [] g v = tt
  read_from-SafeAfter size ((payload, addr) ∷ rest) g v = v

  Step-GatewayInv :
      {s s' : be.Server} {g g' : Gateway} → Step s g s' g' → GatewayInv g → GatewayInv g'
  unfolding SafeFront Safe game_stream_recv
  Step-GatewayInv {s} {s'} {g} {g'} (joins redis_get c token result e) v =
      subst SafeWith e (serve_http-Safe redis_get c token g v)
  Step-GatewayInv {s} {s'} {g} {g'} (reads_ws opens p binary bytes e) v =
      subst SafeFront e (ws_message-SafeFront opens p binary bytes s g v)
  Step-GatewayInv {s} {s'} {g} {g'} (reads_kcp opens p stream e) v =
      subst SafeFront e (kcp_message-SafeFront opens p stream s g v)
  Step-GatewayInv {s} {s'} {g} {g'} (reads_game p r e) v = subst Safe e (deliver-Safe p 1 r g v)
  Step-GatewayInv {s} {s'} {g} (reads_datagram addr buf) v = read_datagram-GatewayInv addr buf g v
  Step-GatewayInv {s} {s'} {g} {g'} (takes_packet size payload addr e) v =
      subst SafeAfter e (read_from-SafeAfter size g.read_ch g v)
  Step-GatewayInv {s} {s'} {g} (writes_packet addr payload) v = write_to-GatewayInv addr payload g v
  Step-GatewayInv {s} {s'} {g} (accepts conn addr) v = accept_kcp-GatewayInv conn addr g v
  Step-GatewayInv {s} {s'} {g} (kicks msg) v = on_kick-GatewayInv msg g v
  Step-GatewayInv {s} {s'} {g} {g'} (pushes r e) v = subst Safe e (on_push-Safe r g v)
  Step-GatewayInv {s} {s'} {g} (closes p) v = close-GatewayInv p g v
  Step-GatewayInv (notifies before after req e) v = v
  Step-GatewayInv (lobby_moves m) v = v

  -- Taking each round of a loop as one step, whatever the clients, the game server, the lobby and
  -- Redis do, and in whatever order the rounds come: the manager's ids are those of the connected
  -- sessions and of no other, each leading to its own session, and an address of the manager leads
  -- to a connected session that is bound to it.
  pub Reach-GatewayInv : {s : be.Server} {g : Gateway} → Reach s g → GatewayInv g
  Reach-GatewayInv (start init) = new_gateway-GatewayInv
  Reach-GatewayInv (next r step) = Step-GatewayInv step (Reach-GatewayInv r)

  -- What the lobby keeps under a request, a disconnect and its own moves, it keeps behind the
  -- gateway.
  pub record Kept (P : be.Server → Type 0) : Type 0 where
    pub starts : (s : be.Server) → be.starts s → P s
    pub requests : (s : be.Server) (req : GatewayRequest) → P s → P (be.handle_request s req).0
    pub disconnects : (s : be.Server) (req : GatewayRequest) → P s → P (be.client_disconnect s req)
    pub moves : (s s' : be.Server) → be.moves s s' → P s → P s'

  module _ {P : be.Server → Type 0} (k : Kept P) where
    dispatch_packet-kept :
        (opens : Bool) (p cmd_id : ℕ) (payload : Bytes) (s : be.Server) (g : Gateway)
        → P s
        → P (dispatch_packet opens p cmd_id payload s g).0
    unfolding dispatch_packet
    dispatch_packet-kept opens p cmd_id payload s g h = elim (Bool-cases (ltb cmd_id 2000)) [
      | inl lobby ↦ rw lobby (k.requests s (request_of (g.objects p) cmd_id payload) h)
      | inr game ↦ rw game h
    ]

    ws_message-kept :
        (opens : Bool) (p : ℕ) (binary : Bool) (bytes : Bytes) (s : be.Server) (g : Gateway)
        → P s
        → P (ws_message opens p binary bytes s g).0
    unfolding ws_message
    ws_message-kept opens p binary bytes s g h =
        elim (Bool-cases (binary && leb 2 (length bytes))) [
          | inl whole ↦
              rw whole (dispatch_packet-kept opens p (uint16_at bytes) (drop 2 bytes) s g h)
          | inr other ↦ rw other h
        ]

    kcp_message-kept :
        (opens : Bool) (p : ℕ) (stream : Bytes) (s : be.Server) (g : Gateway)
        → P s
        → P (kcp_message opens p stream s g).0
    unfolding kcp_message kcp_read
    kcp_message-kept opens p stream s g h = read_lem (read_app_frame stream)
      where
        read_lem : (r : Option ((ℕ × Bytes) × Bytes)) → P (kcp_read opens p r s g).0
        read_lem none = h
        read_lem (some ((cmd_id, payload), rest)) =
            dispatch_packet-kept opens p cmd_id payload s g h

    Step-kept : {s s' : be.Server} {g g' : Gateway} → Step s g s' g' → P s → P s'
    Step-kept (joins redis_get c token result e) h = h
    Step-kept {s} {s'} {g} (reads_ws opens p binary bytes e) h =
        subst (λ r. P r.0) e (ws_message-kept opens p binary bytes s g h)
    Step-kept {s} {s'} {g} (reads_kcp opens p stream e) h =
        subst (λ r. P r.0) e (kcp_message-kept opens p stream s g h)
    Step-kept (reads_game p r e) h = h
    Step-kept (reads_datagram addr buf) h = h
    Step-kept (takes_packet size payload addr e) h = h
    Step-kept (writes_packet addr payload) h = h
    Step-kept (accepts conn addr) h = h
    Step-kept (kicks msg) h = h
    Step-kept (pushes r e) h = h
    Step-kept (closes p) h = h
    Step-kept {s} (notifies before after req e) h = k.disconnects s req h
    Step-kept {s} {s'} (lobby_moves m) h = k.moves s s' m h

    pub Reach-kept : {s : be.Server} {g : Gateway} → Reach s g → P s
    Reach-kept {s} (start init) = k.starts s init
    Reach-kept (next r step) = Step-kept step (Reach-kept r)
