-- ===== src/Locks/Calls.antt =====
-- CreateRoom and the run loop section by section.
use ki_han_server_distribute.Base.{
  ℕ, ℤ, pos, Bool, true, false, Option, none, some, List, [], ◌∷◌, inl, inr, Option-cases,
}
use ki_han_server_distribute.Base.Bytes.{Bytes}
use ki_han_server_distribute.Proto.{Codec, CreateRoomReq}
use ki_han_server_distribute.Json.{Json}
use ki_han_server_distribute.Room.Invariant.{IsValid, add_player_total}
use ki_han_server_distribute.Room.Methods.{
  tick-SamePlayers, SamePlayers-IsValid, start_game-IsValid,
}
use ki_han_server_distribute.Room.{Room, RoomState, idle, gaming, add_player, start_game, tick}
use ki_han_server_distribute.Manager.Invariant.{Inv, assign-Inv, get_or_create_room-Inv}
use ki_han_server_distribute.Control.{Game, read_player}
use ki_han_server_distribute.Threads.Rely.{Safe, Safe-sequence}
use ki_han_server_distribute.Locks.Grows.{Stays, Grows-refl, game_rely, assign-Grows}
use ki_han_server_distribute.Locks.Stays.{
  SamePlayers-Stays, start_game-Stays, add_player-Stays, get_or_create_room-Grows,
}
use ki_han_server_distribute.Locks.Keeps.{IsSafe, edit-IsSafe, read_then, apply_method-Keeps}
use ki_han_server_distribute.Locks.Streams.{ret-IsSafe, either-Safe}
use ki_han_server_distribute.Locks.Rooms.{
  fetch_add, store_back, get_or_create_task, added, add_player_task, add_each, add_all, create_task,
  idle_room, loop_room, loop_rooms, round_task,
}

-- AddPlayer with what it leaves.
added-Keeps :
    (r : Room) (uid : ℕ) (nickname : Bytes) (char_id : ℤ)
    → IsValid r
    → let (r', through) = added (add_player r uid nickname char_id) r in IsValid r' × Stays r r'
added-Keeps r uid nickname char_id v =
    let (r', e, v', _) = add_player_total r uid nickname char_id v in
    rw e (unfold added in (v', add_player-Stays r r' uid nickname char_id e))

add_player_task-IsSafe : (p : ℕ) (player : ℕ × Bytes × ℤ) → IsSafe (add_player_task p player)
unfolding add_player_task Safe game_rely
add_player_task-IsSafe p (uid, nickname, char_id) g = λ g' grown v.
    let (ok, stays) = added-Keeps (g'.manager.objects p) uid nickname char_id (v.valid p) in
    (assign-Inv p _ g'.manager stays.id ok v, assign-Grows p _ g'.manager stays, tt)

get_or_create_task-IsSafe : (i : ℕ) → IsSafe (get_or_create_task i)
unfolding get_or_create_task Safe game_rely
get_or_create_task-IsSafe i g = λ g' grown v.
    (get_or_create_room-Inv (pos i) g'.manager v, get_or_create_room-Grows (pos i) g'.manager, tt)

fetch_add-IsSafe : IsSafe fetch_add
unfolding fetch_add Safe game_rely
fetch_add-IsSafe g = λ g' grown v. (v, Grows-refl g'.manager, tt)

store_back-IsSafe : (past : Bool) → IsSafe (store_back past)
unfolding store_back Safe game_rely
store_back-IsSafe past g = either-Safe past _ _ g (λ g' grown v. (v, Grows-refl g'.manager, tt)) tt

module _ ⦃js : Json⦄ where
  open js use {Value}

  add_each-Safe :
      (p : ℕ) (vs : List Value) (g : Game) → Inv g.manager → Safe game_rely (add_each p vs) g
  unfolding add_each game_rely
  add_each-Safe p [] g v = ret-IsSafe true g
  add_each-Safe p (x ∷ vs) g v = elim (Option-cases (read_player x)) [
    | inl e ↦ rw (e, add_each) (ret-IsSafe false g)
    | inr (player, e) ↦
        rw (e, add_each)
          (Safe-sequence game_rely (add_player_task p player) _ g v
            (add_player_task-IsSafe p player g)
            (λ through g' grown v'.
              either-Safe through _ _ g' (add_each-Safe p vs g' v') (ret-IsSafe false g')))
  ]

  add_all-Safe :
      (p : ℕ) (o : Option Value) (g : Game) → Inv g.manager → Safe game_rely (add_all p o) g
  unfolding add_all
  add_all-Safe p none g v = ret-IsSafe false g
  add_all-Safe p (some players) g v = add_each-Safe p (js.elements players) g v

  pub create_task-Safe :
      (req : CreateRoomReq) (g : Game) → Inv g.manager → Safe game_rely (create_task req) g
  unfolding create_task game_rely
  create_task-Safe req g v =
      Safe-sequence game_rely fetch_add _ g v (fetch_add-IsSafe g) (λ i g₁ grown₁ v₁.
        Safe-sequence game_rely (store_back _) _ g₁ v₁ (store_back-IsSafe _ g₁) (λ a g₂ grown₂ v₂.
          Safe-sequence game_rely (get_or_create_task i) _ g₂ v₂ (get_or_create_task-IsSafe i g₂)
            (λ p g₃ grown₃ v₃.
              Safe-sequence game_rely (add_all p _) _ g₃ v₃ (add_all-Safe p _ g₃ v₃)
                (λ through g₄ grown₄ v₄. ret-IsSafe _ g₄))))

module _ ⦃pb : Codec⦄ where
  idle_room-IsSafe : (p : ℕ) (state : RoomState) → IsSafe (idle_room p state)
  unfolding idle_room
  idle_room-IsSafe p gaming g = ret-IsSafe tt g
  idle_room-IsSafe p idle g = read_then _ _ g (λ g' grown v.
      either-Safe _ _ _ g'
        (read_then _ _ g' (λ g'' grown' v'.
          either-Safe _ _ _ g''
            (edit-IsSafe _
              (apply_method-Keeps p start_game (λ r n ok. start_game-IsValid r n ok)
                (λ r n. start_game-Stays r n))
              g'')
            (ret-IsSafe tt g'')))
        (ret-IsSafe tt g'))

  loop_room-IsSafe : (p : ℕ) (state : RoomState) → IsSafe (loop_room p state)
  unfolding loop_room
  loop_room-IsSafe p gaming g =
      edit-IsSafe _
        (apply_method-Keeps p tick (λ r n ok. SamePlayers-IsValid (tick-SamePlayers r n) ok)
          (λ r n. SamePlayers-Stays (tick-SamePlayers r n)))
        g
  loop_room-IsSafe p idle g = read_then _ _ g (λ g' grown v. idle_room-IsSafe p _ g')

  loop_rooms-Safe : (ps : List ℕ) (g : Game) → Inv g.manager → Safe game_rely (loop_rooms ps) g
  unfolding loop_rooms game_rely
  loop_rooms-Safe [] g v = ret-IsSafe tt g
  loop_rooms-Safe (p ∷ ps) g v = read_then _ _ g (λ g' grown v'.
      Safe-sequence game_rely (loop_room p _) _ g' v' (loop_room-IsSafe p _ g')
        (λ a g'' grown' v''. loop_rooms-Safe ps g'' v''))

  pub round_task-IsSafe : IsSafe round_task
  unfolding round_task
  round_task-IsSafe g = read_then _ _ g (λ g' grown v. loop_rooms-Safe _ g' v)
