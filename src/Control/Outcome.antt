-- ===== src/Control/Outcome.antt =====
-- CreateRoom: the room of a match, and what is left where the player list cannot be read.
use ki_han_server_distribute.Base.{
  ℕ, ℤ, pos, negsuc, Bool, true, false, none, some, List, [], ◌∷◌, ◌≡◌, ◌≢◌, refl, ◌∙◌, int_eq,
  nat_eq, ==_refl,
}
use ki_han_server_distribute.Base.Map.{find, find-set_self}
use ki_han_server_distribute.Base.Bytes.{Bytes}
use ki_han_server_distribute.Proto.{CreateRoomReq}
use ki_han_server_distribute.Json.{Json}
use ki_han_server_distribute.Room.Duel.{duel, solo, add_player-new_room, add_player-solo}
use ki_han_server_distribute.Room.{Room, new_room, add_player}
use ki_han_server_distribute.Manager.Invariant.{objects-assign_self}
use ki_han_server_distribute.Manager.{Manager, assign, get_room, get_or_create_room, found_or_made}
use ki_han_server_distribute.Control.{
  Game, read_player, add_value, add_values, add_parsed, respond, create_room,
}

-- A new id gets a new room.
made_room :
    (i : ℤ) (m : Manager)
    → find i m.rooms ≡ none
    → ((get_or_create_room i m).1 ≡ m.allocated)
      × ((get_or_create_room i m).0.objects m.allocated ≡ new_room i)
      × (find i (get_or_create_room i m).0.rooms ≡ some m.allocated)
unfolding get_or_create_room
made_room i m e =
    rw (e, found_or_made) (refl, rw (==_refl m.allocated) refl, find-set_self i m.allocated m.rooms)

module _ ⦃js : Json⦄ where
  open js use {Value}

  -- CreateRoom under an id that is not in use, by what its loop makes of a new room.
  create_room_fresh :
      (g : Game) (req : CreateRoomReq) (r : Room) (through : Bool)
      → find (pos g.next_room_id) g.manager.rooms ≡ none
      → add_parsed (new_room (pos g.next_room_id)) (js.parse req.player_list_json) ≡ (r, through)
      → let (g', rsp) = create_room g req in
        (rsp ≡ respond g.next_room_id through)
        × (find (pos g.next_room_id) g'.manager.rooms ≡ some g.manager.allocated)
        × (g'.manager.objects g.manager.allocated ≡ r)
  unfolding create_room
  create_room_fresh g req r through fresh e =
      let (here, made, found) = made_room (pos g.next_room_id) g.manager fresh in
      rw (here, made, e) (refl, (unfold assign in found), objects-assign_self _ r _)

  add_value_step :
      (r r' : Room) (v : Value) (vs : List Value) (u : ℕ) (n : Bytes) (c : ℤ)
      → read_player v ≡ some (u, n, c)
      → add_player r u n c ≡ some r'
      → add_values r (v ∷ vs) ≡ add_values r' vs
  unfolding add_values add_value
  add_value_step r r' v vs u n c read added =
      let one : add_value r v ≡ some r' = rw (read, add_value) added in rw (one, add_values)

  -- Two readable players with different uids: the loop gets through, and makes their duel.
  add_values_two :
      (i : ℤ) (v w : Value) (a b : ℕ × Bytes × ℤ)
      → read_player v ≡ some a
      → read_player w ≡ some b
      → a.0 ≢ b.0
      → add_values (new_room i) (v ∷ w ∷ []) ≡ (duel i a b, true)
  add_values_two i v w (u, n, c) (u', n', c') ra rb ne =
      add_value_step (new_room i) (solo i (u, n, c)) v (w ∷ []) u n c ra
        (add_player-new_room i u n c)
      ∙ add_value_step (solo i (u, n, c)) (duel i (u, n, c) (u', n', c')) w [] u' n' c' rb
          (add_player-solo i u u' n n' c c' ne)
      ∙ (unfold add_values in refl)

  -- Under an id that is not in use, a readable list of two different players makes an idle room
  -- under that id, with the first player on seat 1 and the second on seat 2, neither ready; and
  -- the lobby is told the id.
  pub create_room_two :
      (g : Game) (req : CreateRoomReq) (players v w : Value) (a b : ℕ × Bytes × ℤ)
      → find (pos g.next_room_id) g.manager.rooms ≡ none
      → js.parse req.player_list_json ≡ some players
      → js.elements players ≡ v ∷ w ∷ []
      → read_player v ≡ some a
      → read_player w ≡ some b
      → a.0 ≢ b.0
      → let (g', rsp) = create_room g req in
        (rsp ≡ record { err_code = pos 0; room_id = pos g.next_room_id })
        × (get_room g'.manager (pos g.next_room_id) ≡ some g.manager.allocated)
        × (g'.manager.objects g.manager.allocated ≡ duel (pos g.next_room_id) a b)
  unfolding get_room
  create_room_two g req players v w a b fresh parsed two ra rb ne =
      let i = pos g.next_room_id in
      let through : add_parsed (new_room i) (js.parse req.player_list_json) ≡ (duel i a b, true) =
        (unfold add_parsed in rw (parsed, add_parsed, two) (add_values_two i v w a b ra rb ne)) in
      unfold respond in create_room_fresh g req (duel i a b) true fresh through

  -- Where the next id is not in use and the player list cannot be parsed the lobby is told the
  -- error -1, and an empty room stays registered under the id that nobody was told.
  pub create_room_leaks :
      (g : Game) (req : CreateRoomReq)
      → find (pos g.next_room_id) g.manager.rooms ≡ none
      → js.parse req.player_list_json ≡ none
      → let (g', rsp) = create_room g req in
        (rsp ≡ record { err_code = negsuc 0; room_id = pos 0 })
        × (get_room g'.manager (pos g.next_room_id) ≡ some g.manager.allocated)
        × (g'.manager.objects g.manager.allocated ≡ new_room (pos g.next_room_id))
  unfolding get_room
  create_room_leaks g req fresh failed =
      let i = pos g.next_room_id in
      let threw : add_parsed (new_room i) (js.parse req.player_list_json) ≡ (new_room i, false) =
        (unfold add_parsed in rw (failed, add_parsed) refl) in
      unfold respond in create_room_fresh g req (new_room i) false fresh threw
