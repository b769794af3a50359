-- ===== src/Control/Rooms.antt =====
-- CreateRoom: the rooms that it makes.
use ki_han_server_distribute.Base.{
  ℕ, ◌≤◌, pos, Option, none, some, List, [], ◌∷◌, ◌≡◌, refl, ◌∙◌, inl, inr, arith, nat_eq, int_eq,
  Option-cases,
}
use ki_han_server_distribute.Proto.{CreateRoomReq}
use ki_han_server_distribute.Json.{Json}
use ki_han_server_distribute.Room.Invariant.{IsValid, add_player_keeps}
use ki_han_server_distribute.Room.{Room}
use ki_han_server_distribute.Manager.Invariant.{
  Inv, empty_manager-Inv, assign-Inv, get_or_create_room-Inv,
}
use ki_han_server_distribute.Manager.{empty_manager, get_or_create_room}
use ki_han_server_distribute.Control.{
  Game, next_id, initial_next_room_id, read_player, add_value, add_values, add_parsed, create_room,
}

-- The state of the game server: well-formed rooms, and a counter within its range, so that no
-- 32-bit id overflows.
pub record GameInv (g : Game) : Type 0 where
  pub rooms : Inv g.manager
  pub low : 1000 ≤ g.next_room_id
  pub high : g.next_room_id ≤ 1000000001

unfoldable pub initial : Game
initial = record { manager = empty_manager; next_room_id = initial_next_room_id }

pub initial-GameInv : GameInv initial
unfolding initial initial_next_room_id
initial-GameInv = record { rooms = empty_manager-Inv; low = omega arith; high = omega arith }

next_id_range : (n : ℕ) → 1000 ≤ n → n ≤ 1000000001 → (1000 ≤ next_id n) × (next_id n ≤ 1000000001)
unfolding next_id
next_id_range n l h = ground arith

module _ ⦃js : Json⦄ where
  open js use {Value}

  add_value-Keeps :
      (r r' : Room) (v : Value) → IsValid r → add_value r v ≡ some r' → (r'.id ≡ r.id) × IsValid r'
  unfolding add_value
  add_value-Keeps r r' v ok e = elim (Option-cases (read_player v)) [
    | inl threw ↦ cc (rw (threw, add_value) at e)
    | inr ((uid, nickname, char_id), read) ↦
        add_player_keeps r r' uid nickname char_id ok (rw (read, add_value) at e)
  ]

  add_values-Keeps :
      (r : Room) (vs : List Value)
      → IsValid r
      → ((add_values r vs).0.id ≡ r.id) × IsValid (add_values r vs).0
  unfolding add_values
  add_values-Keeps r [] ok = (refl, ok)
  add_values-Keeps r (v ∷ vs) ok = elim (Option-cases (add_value r v)) [
    | inl threw ↦ rw (threw, add_values) (refl, ok)
    | inr (r', e) ↦
        let (same, ok') = add_value-Keeps r r' v ok e in
        let (same', ok'') = add_values-Keeps r' vs ok' in rw (e, add_values) (same' ∙ same, ok'')
  ]

  add_parsed-Keeps :
      (r : Room) (o : Option Value)
      → IsValid r
      → ((add_parsed r o).0.id ≡ r.id) × IsValid (add_parsed r o).0
  unfolding add_parsed
  add_parsed-Keeps r none ok = (refl, ok)
  add_parsed-Keeps r (some players) ok = add_values-Keeps r (js.elements players) ok

  -- Any call of CreateRoom, whether it succeeds or not, keeps the rooms well formed and the next
  -- room id between 1000 and 1000000001; and the id that it uses is in that range.
  pub create_room-GameInv :
      (g : Game) (req : CreateRoomReq) → GameInv g → GameInv (create_room g req).0
  unfolding create_room
  create_room-GameInv g req v =
      let (m, p) = get_or_create_room (pos g.next_room_id) g.manager in
      let inv : Inv m = get_or_create_room-Inv (pos g.next_room_id) g.manager v.rooms in
      let (same, ok) =
        add_parsed-Keeps (m.objects p) (js.parse req.player_list_json) (inv.valid p) in
      let (low, high) = next_id_range g.next_room_id v.low v.high in
      record { rooms = assign-Inv p _ m same ok inv; low = low; high = high }
