-- ===== src/Tests/Front.antt =====
-- The gateway on concrete sessions, datagrams and messages.
use ki_han_server_distribute.Base.{
  ℕ, ◌+◌, ◌%◌, ◌≤◌, ◌<◌, ◌^◌, ◌↔◌, true, false, List, Option, none, some, [], ◌∷◌, ◌++◌, ◌≡◌, refl,
  ap, ◌==◌, nat_eq, nat_beq_iff, arith, length, take, elem, Distinct,
}
use ki_han_server_distribute.Base.Map.{find, set}
use ki_han_server_distribute.Base.Bytes.{Bytes, codes, bytes_eq, put_uint16, to_string, be_uint32}
use ki_han_server_distribute.Packet.{
  encode_header, decode_header, header_size, length_prefixed, encode_app_frame,
  packet_type_handshake, packet_type_kcp,
}
use ki_han_server_distribute.Packet.Frames.{length_prefixed_panics}
use ki_han_server_distribute.Gateway.{
  Gateway, new_session, new_gateway, assign, emit, insert_session, draw_id, close, get_session,
  get_session_by_addr, map_udp_addr, set_udp_addr, udp_write,
}
use ki_han_server_distribute.Gateway.Invariant.{
  Holds-bind, GatewayInv, new_gateway-GatewayInv, Holds-insert,
}
use ki_han_server_distribute.Gateway.Drawing.{Found, draw_id-Found}
use ki_han_server_distribute.Traffic.{
  Backend, Chances, joined, serve_http, ws_message, read_datagram, write_to, on_kick,
}
use ki_han_server_distribute.Traffic.Uids.{welcomed, serve_http_joined}
use ki_han_server_distribute.Traffic.Reach.{
  Reach, start, next, joins, reads_datagram, Reach-GatewayInv,
}
use ki_han_server_distribute.Traffic.Answers.{Answered, ws_message-Answered}
use ki_han_server_distribute.Traffic.Registry.{view, Change, kick}
use ki_han_server_distribute.Traffic.Refinement.{event, Step-Change}
use ki_han_server_distribute.Traffic.Reach.{kicks}
use ki_han_server_distribute.Traffic.{kcp_loop, dispatch_all}
use ki_han_server_distribute.Traffic.Streams.{stream_of, kcp_loop-stream_of}
use ki_han_server_distribute.Traffic.Kicking.{dropped, on_kick-objects}
use ki_han_server_distribute.Traffic.Datagrams.{
  Credentials, read_datagram_refused, read_datagram_handshake, close-shared_addr,
}
use ki_han_server_distribute.Traffic.Sections.Late.{Names, datagram_late}
use ki_han_server_distribute.Traffic.Sections.{datagram_task, close_session_task}
use ki_han_server_distribute.Threads.Moves.{Moves}
use ki_han_server_distribute.Threads.{Task, ret, ◌>>=◌}

-- A lobby that answers each request with its own payload and counts them.
abbrev echo : Backend
echo = record {
  Server = ℕ;
  handle_request = λ s req. (
    s + 1,
    some (record {
      conn_id = req.conn_id;
      cmd_id = req.cmd_id;
      payload = req.payload;
      kick_client = false;
    }),
  );
  client_disconnect = λ s req. s;
  starts = λ s. s ≡ 0;
  moves = λ s s'. s ≡ s';
}

abbrev home : Bytes
home = codes "10.0.0.1:5"

-- One session, and a second one of the same uid.
abbrev one : Gateway
one = (insert_session 7 9 (codes "t") 5 new_gateway).0

abbrev two : Gateway
two = (insert_session 8 3 (codes "u") 5 one).0

one-GatewayInv : GatewayInv one
unfolding insert_session assign new_gateway
one-GatewayInv = Holds-insert new_gateway-GatewayInv 7 9 5 (codes "t") (unfold find in refl)

two-GatewayInv : GatewayInv two
unfolding insert_session assign new_gateway
two-GatewayInv = Holds-insert one-GatewayInv 8 3 5 (codes "u") (unfold find set in refl)

-- A WebSocket message of session 0, and its answer.
ws_message-Answered_example :
    ((ws_message ⦃be = echo⦄ false 0 true (put_uint16 1009 ++ codes "hi") 0 one).0 ≡ 1)
    × Answered 0
        (record { conn_id = 7; cmd_id = 1009; payload = codes "hi"; kick_client = false })
        one
        (ws_message ⦃be = echo⦄ false 0 true (put_uint16 1009 ++ codes "hi") 0 one).1
unfolding insert_session assign new_session new_gateway
ws_message-Answered_example =
    ws_message-Answered ⦃be = echo⦄ false 0 1009 (codes "hi") 0 1
      (record { conn_id = 7; cmd_id = 1009; payload = codes "hi"; kick_client = false }) one refl
      (omega arith) (omega arith) (omega arith) refl (omega arith) (omega arith)

abbrev messages : List (ℕ × Bytes)
messages = (1009, codes "hi") ∷ (1001, []) ∷ []

kcp_loop-stream_of_example :
    (s : Bytes) × (stream_of messages ≡ some s)
    × (kcp_loop ⦃be = echo⦄ false 0 s 0 one ≡ dispatch_all ⦃be = echo⦄ false 0 messages 0 one)
kcp_loop-stream_of_example =
    kcp_loop-stream_of ⦃be = echo⦄ messages false 0 0 one
      (omega arith, omega arith, (omega arith, omega arith, tt))

length_prefixed_panics_example :
    ((length_prefixed (codes "hi") ≡ none) ↔ (65534 ≤ length (codes "hi") % 2 ^ 16))
    × ((encode_app_frame 1009 (codes "hi") ≡ none) ↔ (65532 ≤ length (codes "hi") % 2 ^ 16))
length_prefixed_panics_example = length_prefixed_panics (codes "hi") 1009

on_kick-objects_example :
    (on_kick (some (5, codes "u")) two).objects 0
    ≡ dropped ((two.objects 0).uid == 5) (codes "u") (two.objects 0)
on_kick-objects_example = on_kick-objects 5 (codes "u") two 0 two-GatewayInv

-- The older session is closed and the newer one is not.
on_kick_test :
    (((on_kick (some (5, codes "u")) two).objects 0).connected ≡ false)
    × (((on_kick (some (5, codes "u")) two).objects 1).connected ≡ true)
unfolding on_kick insert_session assign new_session new_gateway set
on_kick_test = (
  ap (λ s. s.connected) (on_kick-objects 5 (codes "u") two 0 two-GatewayInv),
  ap (λ s. s.connected) (on_kick-objects 5 (codes "u") two 1 two-GatewayInv),
)

-- Redis knows every token as that of uid 5, and the draws are 7 and 9.
abbrev known : Bytes → Option Bytes
known key = some (to_string 5)

abbrev chances : Chances
chances = record { upgrades = true; writes = true; draws = 7 ∷ 9 ∷ [] }

drawn_lem : draw_id (7 ∷ 9 ∷ []) new_gateway.sessions ≡ some (7, 9 ∷ [])
unfolding draw_id find new_gateway
drawn_lem = refl

not_empty : codes "t" ≡ [] → ⊥
not_empty e = cc

abbrev first : Gateway
first = welcomed 7 9 (codes "t") 5 new_gateway

pub first_joins : serve_http known chances (codes "t") new_gateway ≡ some (first, joined 0)
unfolding new_gateway
first_joins =
    serve_http_joined known chances (codes "t") 5 7 9 [] new_gateway (omega arith) refl not_empty
      drawn_lem refl refl

-- A session joins and sends its handshake.
abbrev shaken : Gateway
shaken = read_datagram home (encode_header 7 9 packet_type_handshake ++ []) first

shaken-Reach : Reach ⦃be = echo⦄ 0 shaken
shaken-Reach =
    next (next (start refl) (joins known chances (codes "t") (joined 0) first_joins))
      (reads_datagram home (encode_header 7 9 packet_type_handshake ++ []))

Reach-GatewayInv_example : GatewayInv shaken
Reach-GatewayInv_example = Reach-GatewayInv ⦃be = echo⦄ shaken-Reach

-- The kick of an older token of uid 5.
Step-Change_example :
    Change (view shaken) (view (on_kick (some (5, codes "u")) shaken)) (kick (some (5, codes "u")))
unfolding event
Step-Change_example = Step-Change ⦃be = echo⦄ shaken-Reach (kicks (some (5, codes "u")))

-- A datagram with the wrong key.
forged :
    (p : ℕ)
    → ¬ Credentials one
        (decode_header (take header_size (encode_header 7 8 packet_type_kcp ++ codes "x")))
        p
unfolding Credentials insert_session assign new_session new_gateway encode_header decode_header set
    find be_uint32
forged p (led, key) = ground (arith, nat_beq_iff 0 p)

read_datagram_refused_example :
    read_datagram home (encode_header 7 8 packet_type_kcp ++ codes "x") one ≡ one
read_datagram_refused_example =
    read_datagram_refused home (encode_header 7 8 packet_type_kcp ++ codes "x") one forged

read_datagram_handshake_example :
    let header = encode_header 7 9 packet_type_handshake in
    let g' = read_datagram home (header ++ codes "x") one in
    (get_session_by_addr g' home ≡ some 0)
    × ((g'.objects 0).udp_addr ≡ some home)
    × (g'.effects ≡ one.effects ++ udp_write home header ∷ [])
    × (write_to home (codes "y") g'
        ≡ emit (udp_write home (encode_header 7 9 packet_type_kcp ++ codes "y")) g')
unfolding insert_session assign new_session new_gateway
read_datagram_handshake_example =
    read_datagram_handshake 0 home (codes "x") (codes "y") one (unfold find set in refl)
      (omega arith) (omega arith) refl

different : Distinct {A = ℕ} (0 ∷ 7 ∷ 8 ∷ 3 ∷ 4 ∷ [])
unfolding elem
different = (refl, (refl, (refl, (refl, (refl, tt)))))

enough : length two.sessions + 1 < 5
unfolding insert_session new_gateway set assign
enough = omega arith

draw_id-Found_example : Found (0 ∷ 7 ∷ 8 ∷ 3 ∷ 4 ∷ []) two.sessions
draw_id-Found_example = draw_id-Found (0 ∷ 7 ∷ 8 ∷ 3 ∷ 4 ∷ []) two.sessions different enough

-- Both sessions send their handshakes from one address.
abbrev one_home : Gateway
one_home = map_udp_addr 7 home (set_udp_addr 0 home two)

abbrev both_home : Gateway
both_home = map_udp_addr 8 home (set_udp_addr 1 home one_home)

both_home-GatewayInv : GatewayInv both_home
unfolding map_udp_addr set_udp_addr assign insert_session new_session new_gateway
both_home-GatewayInv =
    Holds-bind (Holds-bind two-GatewayInv 0 7 home (unfold find set in refl) refl) 1 8 home
      (unfold find set in refl) refl

close-shared_addr_example :
    let g' = close 0 both_home in
    ((g'.objects 1).connected ≡ true)
    × ((g'.objects 1).udp_addr ≡ some home)
    × (get_session_by_addr g' home ≡ none)
    × (write_to home (codes "y") g' ≡ g')
unfolding map_udp_addr set_udp_addr assign insert_session new_session new_gateway
close-shared_addr_example =
    close-shared_addr 0 1 home (codes "y") both_home both_home-GatewayInv refl refl refl refl refl

abbrev annas_datagram : Bytes
annas_datagram = encode_header 7 9 packet_type_kcp ++ codes "x"

annas_datagram-Names : Names annas_datagram two 0 packet_type_kcp
unfolding assign insert_session new_session new_gateway encode_header decode_header get_session find
    set be_uint32
annas_datagram-Names = record { long = refl; header = refl; found = refl }

abbrev done : Unit {0} → Task Gateway (Unit {0})
done u = ret u

datagram_late_example :
    (g' : Gateway) × Moves two
      ((datagram_task home annas_datagram >>= done) ∷ (close_session_task 0 >>= done) ∷ [])
      g'
      (ret tt ∷ ret tt ∷ [])
    × (find home g'.addr_map ≡ some 7)
    × (get_session g' 7 ≡ none)
    × (close 0 g' ≡ g')
    × (let (g'', q) = insert_session 7 3 (codes "u") 6 g' in get_session_by_addr g'' home ≡ some q)
unfolding assign insert_session new_session new_gateway
datagram_late_example =
    datagram_late done done [] 0 packet_type_kcp 3 6 (codes "u") home annas_datagram two
      annas_datagram-Names refl refl
