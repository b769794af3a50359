-- ===== src/Traffic/Sections.antt =====
-- A datagram of readLoop (gateway/network/udp_server.go) and Close (session.go) at the grain of
-- their critical sections: one for each use of the manager's lock, of a session's lock, and of a
-- member of the session without a lock.
pub mod Alone
pub mod Late
use ki_han_server_distribute.Base.{
  ℕ, Bool, true, false, Option, none, some, if◌then◌else◌, ◌==◌, nat_eq, ◌≡◌, refl, ap, ◌∙◌, arith,
  ltb, length, take, drop,
}
use ki_han_server_distribute.Base.Bytes.{Bytes, bytes_eq}
use ki_han_server_distribute.Base.Map.{find, find-set_self}
use ki_han_server_distribute.Packet.{decode_header, header_size}
use ki_han_server_distribute.Gateway.{
  Session, Gateway, ws_close, assign, cancel, close, close_connected, close_kcp, disconnect_req,
  emit, get_session, get_session_by_addr, session_of_id, insert_session, map_udp_addr, notify,
  remove_session, set_udp_addr,
}
use ki_han_server_distribute.Gateway.Invariant.{put_object_self}
use ki_han_server_distribute.Gateway.Closing.{ended}
use ki_han_server_distribute.Gateway.Closed.{close-get_session, close-objects, close_off}
use ki_han_server_distribute.Traffic.{accept_packet, bind_addr, decoded, read_datagram, take_packet}
use ki_han_server_distribute.Threads.{
  Task, ret, atomic, look, change, alone, alone_then, ◌>>=◌, ◌>>◌,
}

abbrev pub Step : Type 0
Step = Task Gateway (Unit {0})

-- The part of Close behind the test of Connected.
unfoldable pub hang_up_task : ℕ → Step
hang_up_task p = do
  change (λ g. cancel (g.objects p).game_stream g)
  change (λ g. notify (disconnect_req (g.objects p)) g)
  change (emit (ws_close p))
  change (λ g. close_kcp (g.objects p).kcp_conn g)
  change (λ g. remove_session (g.objects p).id g)

-- Close
unfoldable pub close_session_task : ℕ → Step
unfolding hang_up_task
close_session_task p =
    atomic
      (λ g.
        if (g.objects p).connected
        then assign p (record (g.objects p) { connected = false }) g
        else g)
      (λ g. if (g.objects p).connected then hang_up_task p else ret tt)

-- The address is bound where the session had none.
unfoldable pub bind_task : ℕ → ℕ → Option Bytes → Bytes → Step
bind_task p id none addr = change (set_udp_addr p addr) >> change (map_udp_addr id addr)
bind_task p id (some bound) addr = ret tt

-- A packet with the key of the session.
unfoldable pub accepted_task : ℕ → ℕ × ℕ × ℕ → Bytes → Bytes → Step
unfolding bind_task
accepted_task p (id, key, p_type) addr payload = do
  bound ← look (λ g. (g.objects p).udp_addr)
  bind_task p id bound addr
  change (take_packet id key p_type payload addr)

unfoldable pub accept_task : Option ℕ → ℕ × ℕ × ℕ → Bytes → Bytes → Step
unfolding accepted_task
accept_task none (id, key, p_type) addr payload = ret tt
accept_task (some p) (id, key, p_type) addr payload = do
  known ← look (λ g. (g.objects p).key)
  if known == key then accepted_task p (id, key, p_type) addr payload else ret tt

unfoldable pub decoded_task : Option (ℕ × ℕ × ℕ) → Bytes → Bytes → Step
unfolding accept_task
decoded_task none addr payload = ret tt
decoded_task (some (id, key, p_type)) addr payload = do
  found ← look (λ g. get_session g id)
  accept_task found (id, key, p_type) addr payload

-- One datagram of readLoop.
unfoldable pub datagram_task : Bytes → Bytes → Step
unfolding decoded_task
datagram_task addr buf =
    if ltb (length buf) header_size
    then ret tt
    else decoded_task (decode_header (take header_size buf)) addr (drop header_size buf)
