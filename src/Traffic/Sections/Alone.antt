-- ===== src/Traffic/Sections/Alone.antt =====
-- The sections of a datagram and of Close (gateway/network/udp_server.go, session.go), with no other
-- thread beside them.
use ki_han_server_distribute.Base.{
  ℕ, Bool, true, false, Option, none, some, if◌then◌else◌, ◌==◌, nat_eq, ◌≡◌, refl, ap, ◌∙◌, arith,
  take, drop,
}
use ki_han_server_distribute.Base.Bytes.{Bytes, bytes_eq}
use ki_han_server_distribute.Packet.{decode_header, header_size}
use ki_han_server_distribute.Gateway.{
  Session, Gateway, ws_close, assign, cancel, close, close_connected, close_kcp, disconnect_req,
  emit, get_session, notify, remove_session,
}
use ki_han_server_distribute.Traffic.{accept_packet, bind_addr, decoded, read_datagram, take_packet}
use ki_han_server_distribute.Threads.{ret, alone, alone_then, ◌>>=◌}
use ki_han_server_distribute.Traffic.Sections.{
  hang_up_task, close_session_task, bind_task, accepted_task, accept_task, decoded_task,
  datagram_task,
}

cancel-objects : (stream : Option ℕ) (g : Gateway) → (cancel stream g).objects ≡ g.objects
unfolding cancel emit
cancel-objects none g = refl
cancel-objects (some stream) g = refl

close_kcp-objects : (conn : Option ℕ) (g : Gateway) → (close_kcp conn g).objects ≡ g.objects
unfolding close_kcp emit
close_kcp-objects none g = refl
close_kcp-objects (some conn) g = refl

-- What Close does behind the test, for the members of a session.
hung : ℕ → Session → Gateway → Gateway
hung p s g =
    remove_session s.id (
      close_kcp s.kcp_conn (emit (ws_close p) (notify (disconnect_req s) (cancel s.game_stream g))))

hang_up_task-alone :
    (p : ℕ) (g : Gateway) → alone (hang_up_task p) g ≡ some (tt, hung p (g.objects p) g)
unfolding hang_up_task hung alone ◌>>=◌ emit notify
hang_up_task-alone p g =
    rw (cancel-objects (g.objects p).game_stream g, close_kcp-objects (g.objects p).kcp_conn) refl

pub assigned : (p : ℕ) (s : Session) (g : Gateway) → (assign p s g).objects p ≡ s
unfolding assign
assigned p s g = ground arith

closed_if :
    (connected : Bool) (p : ℕ) (g : Gateway)
    → let s = g.objects p in
      alone
        (if connected then hang_up_task p else ret tt)
        (if connected then assign p (record s { connected = false }) g else g)
      ≡ some (tt, if connected then close_connected p s g else g)
unfolding close_connected hung disconnect_req alone
closed_if true p g =
    let s : Session = record (g.objects p) { connected = false } in
    hang_up_task-alone p (assign p s g)
    ∙ ap (λ s'. some (tt, hung p s' (assign p s g))) (assigned p s g)
closed_if false p g = refl

pub close_session_task-alone :
    (p : ℕ) (g : Gateway) → alone (close_session_task p) g ≡ some (tt, close p g)
unfolding close_session_task close alone
close_session_task-alone p g = closed_if (g.objects p).connected p g

pub bind_task-alone :
    (p id : ℕ) (bound : Option Bytes) (addr : Bytes) (g : Gateway)
    → alone (bind_task p id bound addr) g ≡ some (tt, bind_addr p id bound addr g)
unfolding bind_task bind_addr alone ◌>>=◌
bind_task-alone p id none addr g = refl
bind_task-alone p id (some bound) addr g = refl

accepted_if :
    (same : Bool) (p : ℕ) (h : ℕ × ℕ × ℕ) (addr payload : Bytes) (g : Gateway)
    → let (id, key, p_type) = h in
      alone (if same then accepted_task p h addr payload else ret tt) g
      ≡ some (
        tt,
        if same
            then take_packet id key p_type payload addr
                (bind_addr p id (g.objects p).udp_addr addr g)
            else g,
      )
unfolding accepted_task alone ◌>>=◌
accepted_if true p (id, key, p_type) addr payload g =
    alone_then (bind_task p id (g.objects p).udp_addr addr) _ g _ tt
      (bind_task-alone p id (g.objects p).udp_addr addr g)
accepted_if false p (id, key, p_type) addr payload g = refl

accept_task-alone :
    (found : Option ℕ) (h : ℕ × ℕ × ℕ) (addr payload : Bytes) (g : Gateway)
    → alone (accept_task found h addr payload) g ≡ some (tt, accept_packet found h addr payload g)
unfolding accept_task accept_packet alone ◌>>=◌
accept_task-alone none (id, key, p_type) addr payload g = refl
accept_task-alone (some p) (id, key, p_type) addr payload g =
    accepted_if ((g.objects p).key == key) p (id, key, p_type) addr payload g

decoded_task-alone :
    (h : Option (ℕ × ℕ × ℕ)) (addr payload : Bytes) (g : Gateway)
    → alone (decoded_task h addr payload) g ≡ some (tt, decoded h addr payload g)
unfolding decoded_task decoded alone ◌>>=◌
decoded_task-alone none addr payload g = refl
decoded_task-alone (some (id, key, p_type)) addr payload g =
    accept_task-alone (get_session g id) (id, key, p_type) addr payload g

datagram_if :
    (short : Bool) (h : Option (ℕ × ℕ × ℕ)) (addr payload : Bytes) (g : Gateway)
    → alone (if short then ret tt else decoded_task h addr payload) g
      ≡ some (tt, if short then g else decoded h addr payload g)
unfolding alone
datagram_if true h addr payload g = refl
datagram_if false h addr payload g = decoded_task-alone h addr payload g

-- A datagram, and a Close, whose sections nothing comes between do what they do in one step.
pub datagram_task-alone :
    (addr buf : Bytes) (p : ℕ) (g : Gateway)
    → (alone (datagram_task addr buf) g ≡ some (tt, read_datagram addr buf g))
      × (alone (close_session_task p) g ≡ some (tt, close p g))
unfolding datagram_task read_datagram
datagram_task-alone addr buf p g = (
  datagram_if _ (decode_header (take header_size buf)) addr (drop header_size buf) g,
  close_session_task-alone p g,
)
