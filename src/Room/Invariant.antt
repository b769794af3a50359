-- ===== src/Room/Invariant.antt =====
-- What room.cpp keeps true of a room, whatever is called on it: the vector of uids and the map of
-- players hold the same players, each once, and every player sits on seat 1 or 2.
use ki_han_server_distribute.Base.{
  ℕ, ℤ, pos, true, none, some, List, [], ◌∷◌, ◌≡◌, refl, ◌⊎◌, inl, inr, arith, if◌then◌else◌, ◌==◌,
  nat_eq, int_eq, nat_beq_iff, elem, Distinct, Distinct-snoc, elem-snoc, Option-cases,
  Distinct-erase_first, elem-erase_first, elem-erase_first_ne,
}
use ki_han_server_distribute.Base.Map.{
  Map, find, contains, Unique, find-set, find-set_self, find-erase, Unique-set, Unique-erase,
}
use ki_han_server_distribute.Base.Bytes.{Bytes}
use ki_han_server_distribute.Room.{
  Room, Player, new_room, add_player, has_player, assign_beside, join, newcomer, remove_player,
}

-- A player stored under its own uid, on one of the two seats.
pub record IsSeated (u : ℕ) (p : Player) : Type 0 where
  pub own : p.uid ≡ u
  pub seat : (p.game_id ≡ pos 1) ⊎ (p.game_id ≡ pos 2)

-- The invariant over the two fields that it speaks of.
pub record Holds (uids : List ℕ) (players : Map ℕ Player) : Type 0 where
  pub distinct : Distinct uids
  pub unique : Unique players
  pub same : (u : ℕ) → contains u players ≡ elem u uids
  pub seated : (u : ℕ) (p : Player) → find u players ≡ some p → IsSeated u p

abbrev pub IsValid : Room → Type 0
IsValid r = Holds r.player_uids r.players

pub new_room-IsValid : (id : ℤ) → IsValid (new_room id)
unfolding new_room elem find
new_room-IsValid id = record { distinct = tt; unique = tt; same = λ u. refl; seated = λ u p h. cc }

-- The first uid of the vector is a key of the map.
pub head_found :
    {u : ℕ} {uids : List ℕ} {players : Map ℕ Player}
    → Holds (u ∷ uids) players
    → (p : Player) × (find u players ≡ some p)
unfolding elem
head_found {u} {uids} {players} v = elim (Option-cases (find u players)) [
  | inl e ↦ absurd (ground (arith, v.same u, nat_beq_iff u u))
  | inr found ↦ found
]

join-IsValid :
    (r : Room) (uid : ℕ) (nickname : Bytes) (char_id game_id : ℤ)
    → (game_id ≡ pos 1) ⊎ (game_id ≡ pos 2)
    → find uid r.players ≡ none
    → IsValid r
    → IsValid (join r uid nickname char_id game_id)
unfolding join
join-IsValid r uid nickname char_id game_id seat fresh v = record {
  distinct = Distinct-snoc uid r.player_uids (ground (arith, v.same uid)) v.distinct;
  unique = Unique-set uid _ r.players v.unique;
  same = λ u. ground (arith, v.same u, elem-snoc u uid r.player_uids, find-set uid u new r.players);
  seated = λ u p h. ground (arith, find-set uid u new r.players, v.seated u p, nat_beq_iff uid u);
}
  where
    new : Player
    new = newcomer uid nickname char_id game_id

seat_beside :
    (uids : List ℕ) (players : Map ℕ Player)
    → Holds uids players
    → (g : ℤ) × (assign_beside uids players ≡ some g) × ((g ≡ pos 1) ⊎ (g ≡ pos 2))
unfolding assign_beside
seat_beside [] players v = (pos 1, refl, inl refl)
seat_beside (first ∷ rest) players v =
    let (p, found) = head_found v in
    rw found ((if p.game_id == pos 1 then pos 2 else pos 1), refl, ground arith)

-- A call of AddPlayer that returns has found the player there, or has added it on a seat.
pub add_player_cases :
    (r r' : Room) (uid : ℕ) (nickname : Bytes) (char_id : ℤ)
    → add_player r uid nickname char_id ≡ some r'
    → (r ≡ r')
      ⊎ ((g : ℤ) × (find uid r.players ≡ none)
          × (assign_beside r.player_uids r.players ≡ some g)
          × (join r uid nickname char_id g ≡ r'))
unfolding add_player
add_player_cases r r' uid nickname char_id e = elim (Option-cases (find uid r.players)) [
  | inr (p, there) ↦ inl (ground arith)
  | inl fresh ↦ elim (Option-cases (assign_beside r.player_uids r.players)) [
    | inl threw ↦ ground arith
    | inr (g, given) ↦ inr (g, fresh, given, ground arith)
  ]
]

-- AddPlayer never throws on a valid room: it joins the player on seat 1 or 2, or changes nothing
-- where the player is there already; and it keeps the room valid.
pub add_player_total :
    (r : Room) (uid : ℕ) (nickname : Bytes) (char_id : ℤ)
    → IsValid r
    → (r' : Room) × (add_player r uid nickname char_id ≡ some r')
      × IsValid r'
      × (has_player r' uid ≡ true)
unfolding add_player has_player
add_player_total r uid nickname char_id v = elim (Option-cases (find uid r.players)) [
  | inr (p, there) ↦ (r, rw there, v, rw there)
  | inl fresh ↦
      let (g, given, seat) = seat_beside r.player_uids r.players v in
      (
        join r uid nickname char_id g,
        rw (fresh, given),
        join-IsValid r uid nickname char_id g seat fresh v,
        unfold join in rw find-set_self,
      )
]

pub add_player_keeps :
    (r r' : Room) (uid : ℕ) (nickname : Bytes) (char_id : ℤ)
    → IsValid r
    → add_player r uid nickname char_id ≡ some r'
    → (r'.id ≡ r.id) × IsValid r'
add_player_keeps r r' uid nickname char_id v e =
    let (r'', e', v', _) = add_player_total r uid nickname char_id v in
    let same : r'' ≡ r' = cc in
    (
      elim (add_player_cases r r' uid nickname char_id e) [
        | inl here ↦ rw here refl
        | inr (g, _, _, joined) ↦ rw (← joined) (unfold join in refl)
      ],
      rw same at v',
    )

pub remove_player-IsValid : (r : Room) (uid : ℕ) → IsValid r → IsValid (remove_player r uid)
unfolding remove_player
remove_player-IsValid r uid v = record {
  distinct = Distinct-erase_first uid r.player_uids v.distinct;
  unique = Unique-erase uid r.players v.unique;
  same = λ u. ground (
    arith,
    v.same u,
    find-erase uid u r.players,
    elem-erase_first u r.player_uids v.distinct,
    elem-erase_first_ne uid u r.player_uids,
    nat_beq_iff uid u,
  );
  seated = λ u p h. ground (arith, find-erase uid u r.players, v.seated u p);
}
