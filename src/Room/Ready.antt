-- ===== src/Room/Ready.antt =====
-- `CheckAllReady` and `StopGame` in room.cpp: when a game may start.
use ki_han_server_distribute.Base.{
  ℕ, ◌≤◌, true, false, Option, none, some, List, [], ◌∷◌, ◌≡◌, ◌↔◌, refl, sym, ◌∙◌, arith,
  if◌then◌else◌, ltb, nat_eq, length,
}
use mathlib.Core.Option
use ki_han_server_distribute.Base.Map.{
  Map, find, all_values, map_values, find-map_values, all_values-find, all_values_of_find,
}
use ki_han_server_distribute.Proto.{Codec}
use ki_han_server_distribute.Sessions.{Sessions}
use ki_han_server_distribute.Room.Invariant.{Holds, IsValid, head_found}
use ki_han_server_distribute.Room.Methods.{stop_game-IsValid}
use ki_han_server_distribute.Room.{Room, Player, idle, check_all_ready, stop_game, unset_ready}

-- In a valid room CheckAllReady answers yes exactly when two players or more are there and every
-- player that can be found is ready, whatever the order in which the map is iterated.
pub check_all_ready_iff :
    (r : Room)
    → IsValid r
    → (check_all_ready r ≡ true) ↔ (
        (2 ≤ length r.player_uids)
        × ((u : ℕ) (p : Player) → find u r.players ≡ some p → p.ready ≡ true))
unfolding check_all_ready
check_all_ready_iff r v = (
  λ yes_all. (
    ground arith,
    λ u p found. all_values-find (λ (q : Player). q.ready) u p r.players (ground arith) found,
  ),
  λ all.
      ground
        (arith, all_values_of_find (λ (q : Player). q.ready) r.players v.unique (λ u p. all.1 u p)),
)

-- A player of a room with no one ready: the test fails.
none_ready :
    (uids : List ℕ) (players : Map ℕ Player)
    → Holds uids players
    → ((u : ℕ) (p : Player) → find u players ≡ some p → p.ready ≡ false)
    → (if ltb (length uids) 2 then false else all_values (λ p. p.ready) players) ≡ false
none_ready [] players v none_is = refl
none_ready (u ∷ uids) players v none_is =
    let (p, found) = head_found v in
    ground (arith, none_is u p found, all_values-find (λ (q : Player). q.ready) u p players)

not_ready : (o : Option Player) (p : Player) → Option.map unset_ready o ≡ some p → p.ready ≡ false
unfolding unset_ready
not_ready none p e = cc
not_ready (some q) p e = ground arith

module _ ⦃pb : Codec⦄ where
  -- After StopGame a valid room is idle, and it cannot be started until players are ready again.
  pub stop_game-not_ready :
      (r : Room) (winner : ℕ) (n : Sessions)
      → IsValid r
      → ((stop_game r winner n).0.state ≡ idle) × (check_all_ready (stop_game r winner n).0 ≡ false)
  unfolding stop_game check_all_ready
  stop_game-not_ready r winner n v = (
    refl,
    none_ready r.player_uids (map_values unset_ready r.players) (stop_game-IsValid r winner n v)
        λ u p found.
          not_ready (find u r.players) p (sym (find-map_values u unset_ready r.players) ∙ found),
  )
