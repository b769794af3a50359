-- ===== src/Room/Seats.antt =====
-- The two seats of a game: `AssignGameId` in room.cpp.
use ki_han_server_distribute.Base.{
  ℕ, ◌≤◌, ℤ, pos, some, List, [], ◌∷◌, ◌≡◌, ◌≢◌, inl, inr, arith, nat_eq, int_eq, nat_beq_iff,
  length, elem, subst, int_beq_iff,
}
use ki_han_server_distribute.Base.Map.{Map, find, find-set}
use ki_han_server_distribute.Base.Bytes.{Bytes}
use ki_han_server_distribute.Room.Invariant.{Holds, add_player_cases, IsValid}
use ki_han_server_distribute.Room.{Room, Player, add_player, assign_beside, join, newcomer}

-- Two players of the room never share a seat.
abbrev pub Apart : Room → Type 0
Apart r =
    (u v : ℕ) (p q : Player)
    → find u r.players ≡ some p
    → find v r.players ≡ some q
    → u ≢ v
    → p.game_id ≢ q.game_id

-- Who is found beside a newcomer in a room of one is the one player that was there.
beside_first :
    (uids : List ℕ) (players : Map ℕ Player) (u : ℕ) (p : Player)
    → Holds uids players
    → length uids ≤ 1
    → find u players ≡ some p
    → uids ≡ u ∷ []
unfolding elem
beside_first [] players u p v small found = ground (arith, v.same u)
beside_first (f ∷ []) players u p v small found = ground (arith, v.same u, nat_beq_iff f u)
beside_first (f ∷ g ∷ rest) players u p v small found = absurd (omega arith)

-- The seat given beside a player is the other one.
other_seat :
    (uids : List ℕ) (players : Map ℕ Player) (u : ℕ) (p : Player) (g : ℤ)
    → uids ≡ u ∷ []
    → find u players ≡ some p
    → assign_beside uids players ≡ some g
    → p.game_id ≢ g
unfolding assign_beside
other_seat [] players u p g e found given = cc
other_seat (f ∷ rest) players u p g e found given = ground (arith, int_beq_iff p.game_id (pos 1))

-- A room of one player at most has nobody to share a seat.
single-Apart : (r : Room) → IsValid r → length r.player_uids ≤ 1 → Apart r
single-Apart r v small u w p q fu fw ne = absurd (
    ne (
      ground (
        arith,
        beside_first r.player_uids r.players u p v small fu,
        beside_first r.player_uids r.players w q v small fw,
      )))

join-Apart :
    (r : Room) (uid : ℕ) (nickname : Bytes) (char_id g : ℤ)
    → IsValid r
    → length r.player_uids ≤ 1
    → assign_beside r.player_uids r.players ≡ some g
    → Apart (join r uid nickname char_id g)
unfolding join
join-Apart r uid nickname char_id g v small given u w p q fu fw ne = ground (
  arith,
  find-set uid u new r.players,
  find-set uid w new r.players,
  nat_beq_iff uid u,
  nat_beq_iff uid w,
  other_seat_of u p,
  other_seat_of w q,
  single-Apart r v small u w p q,
)
  where
    new : Player
    new = newcomer uid nickname char_id g

    other_seat_of : (x : ℕ) (y : Player) → find x r.players ≡ some y → y.game_id ≢ g
    other_seat_of x y found =
        other_seat r.player_uids r.players x y g
          (beside_first r.player_uids r.players x y v small found) found given

-- A valid room with fewer than two players, in which AddPlayer has added one or found it there,
-- has two seats for two players: no two of them have the same game id.
pub add_player-Apart :
    (r r' : Room) (uid : ℕ) (nickname : Bytes) (char_id : ℤ)
    → IsValid r
    → length r.player_uids ≤ 1
    → add_player r uid nickname char_id ≡ some r'
    → Apart r'
add_player-Apart r r' uid nickname char_id v small added =
    elim (add_player_cases r r' uid nickname char_id added) [
      | inl same ↦ subst Apart same (single-Apart r v small)
      | inr (g, fresh, given, joined) ↦
          subst Apart joined (join-Apart r uid nickname char_id g v small given)
    ]
