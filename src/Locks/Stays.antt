-- ===== src/Locks/Stays.antt =====
-- The methods of room.cpp and GetOrCreateRoom: a player who is in a room stays in it, since nothing
-- calls RemovePlayer.
use ki_han_server_distribute.Base.{
  ℕ, ℤ, false, Option, none, some, ◌≡◌, refl, subst, inl, inr, arith, ◌==◌, nat_eq, nat_beq_iff,
  int_eq, Bool-cases, Option-cases,
}
use ki_han_server_distribute.Base.Bytes.{Bytes}
use ki_han_server_distribute.Base.Map.{find, find-set, find-update, find-map_values}
use mathlib.Core.Option
use ki_han_server_distribute.Proto.{Codec}
use ki_han_server_distribute.Sessions.{Sessions}
use ki_han_server_distribute.Room.Invariant.{add_player_cases}
use ki_han_server_distribute.Room.Methods.{SamePlayers}
use ki_han_server_distribute.Room.{
  Room, Player, mark_ready, set_ready, unset_ready, stop_game, start_game, add_player, join,
  newcomer,
}
use ki_han_server_distribute.Manager.Invariant.{objects-assign}
use ki_han_server_distribute.Manager.{Manager, make_shared, get_or_create_room, found_or_made}
use ki_han_server_distribute.Locks.Grows.{Stays, Stays-refl, Grows, Grows-refl}

pub SamePlayers-Stays : {r r' : Room} → SamePlayers r r' → Stays r r'
SamePlayers-Stays s = record { id = s.id; seats = λ u q h. (q, rw s.players h, refl) }

-- A change of players in place that keeps seats.
map_kept :
    (f : Player → Player) (keeps : (p : Player) → (f p).game_id ≡ p.game_id) (o : Option Player)
    (q : Player)
    → o ≡ some q
    → (q' : Player) × (Option.map f o ≡ some q') × (q'.game_id ≡ q.game_id)
map_kept f keeps o q h = (f q, rw h refl, keeps q)

pub mark_ready-Stays : (r : Room) (uid : ℕ) → Stays r (mark_ready r uid)
unfolding mark_ready set_ready
mark_ready-Stays r uid = record {
  id = refl;
  seats = λ u q h. rw (find-update uid u set_ready r.players) (elim (Bool-cases (uid == u)) [
    | inl hit ↦ rw hit (map_kept set_ready (λ p. refl) (find u r.players) q h)
    | inr miss ↦ rw miss (q, h, refl)
  ]);
}

join-Stays :
    (r : Room) (uid : ℕ) (nickname : Bytes) (char_id g : ℤ)
    → find uid r.players ≡ none
    → Stays r (join r uid nickname char_id g)
unfolding join
join-Stays r uid nickname char_id g fresh = record {
  id = refl;
  seats = λ u q h. (
    q,
    ground (arith, find-set uid u (newcomer uid nickname char_id g) r.players, nat_beq_iff uid u),
    refl,
  );
}

pub add_player-Stays :
    (r r' : Room) (uid : ℕ) (nickname : Bytes) (char_id : ℤ)
    → add_player r uid nickname char_id ≡ some r'
    → Stays r r'
add_player-Stays r r' uid nickname char_id e = elim (add_player_cases r r' uid nickname char_id e) [
  | inl here ↦ subst (Stays r) here (Stays-refl r)
  | inr (g, fresh, _, joined) ↦ rw joined at (join-Stays r uid nickname char_id g fresh)
]

pub get_or_create_room-Grows : (i : ℤ) (m : Manager) → Grows m (get_or_create_room i m).0
unfolding get_or_create_room found_or_made make_shared
get_or_create_room-Grows i m = elim (Option-cases (find i m.rooms)) [
  | inr (p, e) ↦ rw (e, found_or_made) (Grows-refl m)
  | inl e ↦
      rw (e, found_or_made)
        (record {
          pointers = omega arith;
          stays = λ p h. rw (objects-assign m.allocated p _ m) (
              let miss : (m.allocated == p) ≡ false = ground (arith, nat_beq_iff m.allocated p) in
              rw miss (Stays-refl (m.objects p)));
        })
]

module _ ⦃pb : Codec⦄ where
  pub start_game-Stays : (r : Room) (n : Sessions) → Stays r (start_game r n).0
  unfolding start_game
  start_game-Stays r n = record { id = refl; seats = λ u q h. (q, h, refl) }

  pub stop_game-Stays : (r : Room) (winner : ℕ) (n : Sessions) → Stays r (stop_game r winner n).0
  unfolding stop_game unset_ready
  stop_game-Stays r winner n = record {
    id = refl;
    seats = λ u q h.
        rw (find-map_values u unset_ready r.players)
          (map_kept unset_ready (λ p. refl) (find u r.players) q h);
  }
