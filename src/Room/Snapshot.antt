-- ===== src/Room/Snapshot.antt =====
-- `BuildSnapshotJson` in room.cpp.
use mathlib.Core.List.{append_assoc}
use ki_han_server_distribute.Base.{
  ℕ, ℤ, Bool, true, false, none, some, List, [], ◌∷◌, ◌++◌, ◌≡◌, refl, ◌∙◌, inl, inr, arith, nat_eq,
  elem, Option-cases, nat_beq_iff,
}
use ki_han_server_distribute.Base.Map.{Map, find}
use ki_han_server_distribute.Base.Bytes.{Bytes, codes, to_string, to_string_int}
use ki_han_server_distribute.Room.Invariant.{IsValid}
use ki_han_server_distribute.Room.{
  Room, Player, build_snapshot_json, snapshot_loop, json_item, player_json,
}

-- The players of a room in the order of its uids.
unfoldable pub seated_players : Map ℕ Player → List ℕ → List Player
seated_players players [] = []
seated_players players (u ∷ uids) =
    let rest = seated_players players uids in
    elim (find u players) [ none ↦ rest | some p ↦ p ∷ rest ]

-- What stands for one player: the uid, the nickname as it is, between quotes and not escaped, and the
-- character.
unfoldable pub player_text : Player → Bytes
player_text p =
    codes "{\"uid\":"
    ++ to_string p.uid
    ++ codes ",\"nickname\":\""
    ++ p.nickname
    ++ codes "\",\"character_id\":"
    ++ to_string_int p.character_id
    ++ codes "}"

-- The texts of players with a comma in front of each.
comma_each : List Player → Bytes
comma_each [] = []
comma_each (p ∷ ps) = codes "," ++ (player_text p ++ comma_each ps)

-- The texts of the players with commas between them, in brackets. This is JSON only where no
-- nickname has a character that JSON escapes.
unfoldable pub snapshot_text : List Player → Bytes
unfolding comma_each
snapshot_text [] = codes "[]"
snapshot_text (p ∷ ps) = codes "[" ++ (player_text p ++ (comma_each ps ++ codes "]"))

abbrev AllFound : Map ℕ Player → List ℕ → Type 0
AllFound players uids = (u : ℕ) → elem u uids ≡ true → (p : Player) × (find u players ≡ some p)

tail_found :
    (players : Map ℕ Player) (u : ℕ) (uids : List ℕ)
    → AllFound players (u ∷ uids)
    → AllFound players uids
unfolding elem
tail_found players u uids f w h = f w (ground arith)

module _ (players : Map ℕ Player) (u : ℕ) (uids : List ℕ) {p : Player}
    (found : find u players ≡ some p) where
  loop_step :
      (first : Bool) (json : Bytes)
      → snapshot_loop players (u ∷ uids) first json
        ≡ snapshot_loop players uids false (json ++ json_item first p)
  unfolding snapshot_loop
  loop_step first json = rw (found, snapshot_loop)

  seated_step : seated_players players (u ∷ uids) ≡ p ∷ seated_players players uids
  unfolding seated_players
  seated_step = rw (found, seated_players)

loop_rest :
    (players : Map ℕ Player) (uids : List ℕ) (json : Bytes)
    → AllFound players uids
    → snapshot_loop players uids false json
      ≡ some (json ++ (comma_each (seated_players players uids) ++ codes "]"))
loop_rest players [] json f = unfold snapshot_loop seated_players comma_each in refl
loop_rest players (u ∷ uids) json f =
    let (p, found) = f u (unfold elem in ground (arith, nat_beq_iff u u)) in
    loop_step players u uids found false json
    ∙ loop_rest players uids (json ++ json_item false p) (tail_found players u uids f)
    ∙ rw (seated_step players u uids found)
        (unfold json_item comma_each player_json player_text in simp append_assoc)

-- The bytes of the whole array, from the loop's first round on.
loop_all :
    (players : Map ℕ Player) (uids : List ℕ)
    → AllFound players uids
    → snapshot_loop players uids true (codes "[")
      ≡ some (snapshot_text (seated_players players uids))
loop_all players [] f = unfold snapshot_loop seated_players snapshot_text in refl
loop_all players (u ∷ uids) f =
    let (p, found) = f u (unfold elem in ground (arith, nat_beq_iff u u)) in
    loop_step players u uids found true (codes "[")
    ∙ loop_rest players uids (codes "[" ++ json_item true p) (tail_found players u uids f)
    ∙ rw (seated_step players u uids found)
        (unfold json_item snapshot_text player_json player_text in simp append_assoc)

-- In a valid room the snapshot never throws, and it is `[`, the text {"uid":U,"nickname":"N",
-- "character_id":C}, without a space, of each player in the order in which they were added, with
-- commas between them, and `]`; a nickname stands in it as it is, so it need not be JSON.
pub build_snapshot_json_total :
    (r : Room)
    → IsValid r
    → build_snapshot_json r ≡ some (snapshot_text (seated_players r.players r.player_uids))
unfolding build_snapshot_json
build_snapshot_json_total r v = loop_all r.players r.player_uids λ u listed.
    elim (Option-cases (find u r.players)) [
      | inl e ↦ absurd (ground (arith, v.same u))
      | inr found ↦ found
    ]

-- A nickname that closes its own object and opens another one.
unfoldable pub forged : Bytes → ℤ → ℕ → Bytes → Bytes
forged nickname char_id uid more =
    nickname
    ++ (codes "\",\"character_id\":"
        ++ (to_string_int char_id
            ++ (codes "},{\"uid\":" ++ (to_string uid ++ (codes ",\"nickname\":\"" ++ more)))))

-- Nicknames are not escaped: for any two players there is a single one, with a forged nickname,
-- whose snapshot is byte for byte the snapshot of the two.
pub snapshot_text_ambiguous :
    (p q : Player)
    → snapshot_text (
        record p {
          nickname = forged p.nickname p.character_id q.uid q.nickname;
          character_id = q.character_id;
        }
        ∷ [])
      ≡ snapshot_text (p ∷ q ∷ [])
unfolding snapshot_text player_text forged
snapshot_text_ambiguous p q = simp append_assoc
