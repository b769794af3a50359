-- ===== src/Room/Duel.antt =====
-- Two players who join a new room.
use ki_han_server_distribute.Base.{
  ℕ, ℤ, pos, some, [], ◌∷◌, ◌≡◌, ◌≢◌, refl, arith, nat_eq, nat_beq_iff,
}
use ki_han_server_distribute.Base.Map.{find, set}
use ki_han_server_distribute.Base.Bytes.{Bytes}
use ki_han_server_distribute.Room.{Room, new_room, newcomer, add_player}

-- The idle room of two players: the first on seat 1, the second on seat 2, and nobody ready.
unfoldable pub duel : ℤ → ℕ × Bytes × ℤ → ℕ × Bytes × ℤ → Room
duel i (u, nickname, char_id) (u', nickname', char_id') = record (new_room i) {
  player_uids = u ∷ u' ∷ [];
  players =
      (u, newcomer u nickname char_id (pos 1)) ∷ (u', newcomer u' nickname' char_id' (pos 2)) ∷ [];
}

unfoldable pub solo : ℤ → ℕ × Bytes × ℤ → Room
solo i (u, nickname, char_id) = record (new_room i) {
  player_uids = u ∷ [];
  players = (u, newcomer u nickname char_id (pos 1)) ∷ [];
}

pub add_player-new_room :
    (i : ℤ) (u : ℕ) (nickname : Bytes) (char_id : ℤ)
    → add_player (new_room i) u nickname char_id ≡ some (solo i (u, nickname, char_id))
unfolding add_player new_room find set solo
add_player-new_room i u nickname char_id = refl

pub add_player-solo :
    (i : ℤ) (u u' : ℕ) (nickname nickname' : Bytes) (char_id char_id' : ℤ)
    → u ≢ u'
    → add_player (solo i (u, nickname, char_id)) u' nickname' char_id'
      ≡ some (duel i (u, nickname, char_id) (u', nickname', char_id'))
unfolding add_player new_room find set solo duel newcomer
add_player-solo i u u' nickname nickname' char_id char_id' ne = ground (arith, nat_beq_iff u u')
