-- ===== src/Traffic/Answers.antt =====
-- A message of a client for the lobby and the way of the answer: wsReadLoop and DispatchPacket of
-- gateway/network/.
use ki_han_server_distribute.Base.{
  ℕ, ◌^◌, ◌<◌, Bool, true, Option, some, ◌++◌, ◌≡◌, refl, arith, ltb, leb, if◌then◌else◌, length,
}
use ki_han_server_distribute.Base.Bytes.{Bytes, put_uint16}
use ki_han_server_distribute.Proto.{GatewayResponse}
use ki_han_server_distribute.Packet.{uint16_at}
use ki_han_server_distribute.Gateway.{
  Gateway, Effect, emit, send, close, kick_if, deliver, out_frame,
}
use ki_han_server_distribute.Gateway.Sending.{client_reads, Arrives, send-Arrives}
use ki_han_server_distribute.Traffic.{Backend, request_of, answered, dispatch_packet, ws_message}

uint16_at-put : (n : ℕ) (rest : Bytes) → n < 2 ^ 16 → uint16_at (put_uint16 n ++ rest) ≡ n
uint16_at-put n rest h = omega arith

-- What a session's client reads of an answer, and the gateway behind it: where the answer says so
-- the session is closed.
unfoldable pub Answered : ℕ → GatewayResponse → Gateway → Option Gateway → Type 0
Answered p r g after =
    (e : Effect) × (after ≡ some (if r.kick_client then close p (emit e g) else emit e g))
    × (client_reads p (g.objects p) e ≡ some (r.cmd_id, r.payload))

pub deliver-Answered :
    (p channel : ℕ) (r : GatewayResponse) (g : Gateway)
    → Arrives p r g (send p channel (out_frame r) g)
    → Answered p r g (deliver p channel r g)
unfolding Answered Arrives deliver kick_if
deliver-Answered p channel r g (e, sent, read) = (e, rw sent refl, read)

module _ ⦃be : Backend⦄ where
  -- A WebSocket message of a connected session for the lobby, whose command is below 2000, reaches
  -- the lobby as a request of the session's id and uid. Where the lobby answers, with a command of
  -- 16 bits and less than 65532 bytes, and the session's id and key have 32 bits, the answer goes
  -- out in one write from which this session's client reads it, and the session is closed exactly
  -- where the answer says so.
  pub ws_message-Answered :
      (opens : Bool) (p cmd_id : ℕ) (payload : Bytes) (server server' : be.Server)
      (r : GatewayResponse) (g : Gateway)
      → (g.objects p).connected ≡ true
      → (g.objects p).id < 2 ^ 32
      → (g.objects p).key < 2 ^ 32
      → cmd_id < 2000
      → be.handle_request server (record {
        conn_id = (g.objects p).id;
        uid = (g.objects p).uid;
        cmd_id = cmd_id;
        payload = payload;
      })
        ≡ (server', some r)
      → r.cmd_id < 2 ^ 16
      → length r.payload < 65532
      → ((ws_message opens p true (put_uint16 cmd_id ++ payload) server g).0 ≡ server')
        × Answered p r g (ws_message opens p true (put_uint16 cmd_id ++ payload) server g).1
  unfolding ws_message dispatch_packet request_of answered
  ws_message-Answered opens p cmd_id payload server server' r g on id32 key32 lobby handled cmd16
        short =
      let command : uint16_at (put_uint16 cmd_id ++ payload) ≡ cmd_id =
        uint16_at-put cmd_id payload (omega arith) in
      let whole : leb 2 (length (put_uint16 cmd_id ++ payload)) ≡ true = ground arith in
      let below : ltb cmd_id 2000 ≡ true = ground arith in
      rw (whole, command, below, handled)
        (refl, deliver-Answered p 1 r g (send-Arrives p r g cmd16 id32 key32 1 on short))
