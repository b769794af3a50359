-- ===== src/Room/Methods.antt =====
-- The methods of room.cpp that change players in place, or only the frame, keep a room valid.
use ki_han_server_distribute.Base.{ℕ, Option, none, some, List, ◌≡◌, refl, arith, nat_eq, int_eq}
use ki_han_server_distribute.Base.Map.{
  Map, find, update, map_values, find-update, find-map_values, Unique-update, Unique-map_values,
}
use ki_han_server_distribute.Base.Bytes.{Bytes}
use ki_han_server_distribute.Proto.{Codec}
use mathlib.Core.Option
use ki_han_server_distribute.Sessions.{Sessions}
use ki_han_server_distribute.Room.Invariant.{Holds, IsSeated, IsValid}
use ki_han_server_distribute.Room.{
  Room, Player, mark_ready, push_input, tick, start_game, stop_game, set_ready, unset_ready,
}

-- A change of players in place that keeps uids and seats.
module _ (f : Player → Player)
    (keeps : (p : Player) → ((f p).uid ≡ p.uid) × ((f p).game_id ≡ p.game_id)) where
  map-IsSeated :
      (u : ℕ) (o : Option Player)
      → ((p : Player) → o ≡ some p → IsSeated u p)
      → (p : Player) → Option.map f o ≡ some p
      → IsSeated u p
  map-IsSeated u none h p e = cc
  map-IsSeated u (some q) h p e = ground (arith, h q, keeps q)

  Holds-map_values :
      (uids : List ℕ) (players : Map ℕ Player)
      → Holds uids players
      → Holds uids (map_values f players)
  Holds-map_values uids players v = record {
    distinct = v.distinct;
    unique = Unique-map_values f players v.unique;
    same = λ u. ground (arith, v.same u, find-map_values u f players);
    seated = λ u p h.
        map-IsSeated u (find u players) (v.seated u) p
          (ground (arith, find-map_values u f players));
  }

  Holds-update :
      (uid : ℕ) (uids : List ℕ) (players : Map ℕ Player)
      → Holds uids players
      → Holds uids (update uid f players)
  Holds-update uid uids players v = record {
    distinct = v.distinct;
    unique = Unique-update uid f players v.unique;
    same = λ u. ground (arith, v.same u, find-update uid u f players);
    seated = λ u p h. ground (
      arith,
      find-update uid u f players,
      v.seated u p,
      map-IsSeated u (find u players) (v.seated u) p,
    );
  }

pub mark_ready-IsValid : (r : Room) (uid : ℕ) → IsValid r → IsValid (mark_ready r uid)
unfolding mark_ready set_ready
mark_ready-IsValid r uid v =
    Holds-update set_ready (λ p. (refl, refl)) uid r.player_uids r.players v

pub mark_ready-id : (r : Room) (uid : ℕ) → (mark_ready r uid).id ≡ r.id
unfolding mark_ready
mark_ready-id r uid = refl

-- An input changes nothing but the frame.
pub record SamePlayers (r r' : Room) : Type 0 where
  pub id : r'.id ≡ r.id
  pub state : r'.state ≡ r.state
  pub uids : r'.player_uids ≡ r.player_uids
  pub players : r'.players ≡ r.players

pub push_input-SamePlayers :
    (r : Room) (uid : ℕ) (raw : Bytes) → SamePlayers r (push_input r uid raw)
unfolding push_input
push_input-SamePlayers r uid raw = ground arith

pub SamePlayers-IsValid : {r r' : Room} → SamePlayers r r' → IsValid r → IsValid r'
SamePlayers-IsValid s v = rw (s.uids, s.players) v

module _ ⦃pb : Codec⦄ where
  pub tick-SamePlayers : (r : Room) (n : Sessions) → SamePlayers r (tick r n).0
  unfolding tick
  tick-SamePlayers r n = ground arith

  pub start_game-IsValid : (r : Room) (n : Sessions) → IsValid r → IsValid (start_game r n).0
  unfolding start_game
  start_game-IsValid r n v = v

  pub stop_game-id : (r : Room) (winner : ℕ) (n : Sessions) → (stop_game r winner n).0.id ≡ r.id
  unfolding stop_game
  stop_game-id r winner n = refl

  pub stop_game-IsValid :
      (r : Room) (winner : ℕ) (n : Sessions) → IsValid r → IsValid (stop_game r winner n).0
  unfolding stop_game unset_ready
  stop_game-IsValid r winner n v =
      Holds-map_values unset_ready (λ p. (refl, refl)) r.player_uids r.players v
