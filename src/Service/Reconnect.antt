-- ===== src/Service/Reconnect.antt =====
-- Sessions and rooms are kept by uid: what an old stream's end does to a player who has connected
-- again, and what the end of one room does to a player who has gone on to another.
use ki_han_server_distribute.Base.{
  ℕ, ℤ, true, none, some, ◌≡◌, ◌≢◌, refl, ◌∙◌, arith, nat_eq, int_eq, int_beq_iff, elem,
}
use ki_han_server_distribute.Base.Map.{find}
use ki_han_server_distribute.Base.Bytes.{Bytes}
use ki_han_server_distribute.Sessions.{Sessions, send_to_player, send_if}
use ki_han_server_distribute.Manager.{Manager, get_room, get_room_by_uid, room_of, destroy_room}
use ki_han_server_distribute.Manager.Destroy.{destroy_room_found}

send_to_nobody :
    (uid cmd_id : ℕ) (payload : Bytes) (n : Sessions)
    → find uid n.sessions ≡ none
    → send_to_player uid cmd_id payload n ≡ n
unfolding send_to_player
send_to_nobody uid cmd_id payload n e = rw (e, send_if) refl

-- A room that ends unmaps its players by uid: one who has gone on to another room, which still
-- stands, is led to no room any more.
pub destroy_room_strays :
    (i j : ℤ) (p q u : ℕ) (m : Manager)
    → find i m.rooms ≡ some p
    → find j m.rooms ≡ some q
    → i ≢ j
    → find u m.uid_to_room ≡ some j
    → elem u (m.objects p).player_uids ≡ true
    → (get_room_by_uid m u ≡ some q)
      × (get_room_by_uid (destroy_room i m) u ≡ none)
      × (get_room (destroy_room i m) j ≡ some q)
unfolding get_room_by_uid
destroy_room_strays i j p q u m here there other mapped listed =
    let (rooms_after, mapped_after) = destroy_room_found i p m here in
    (
      rw (mapped, room_of) (unfold get_room in there),
      rw (mapped_after u, listed, room_of) refl,
      rooms_after j ∙ (unfold get_room in ground (arith, int_beq_iff i j)),
    )
