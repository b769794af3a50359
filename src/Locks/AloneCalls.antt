-- ===== src/Locks/AloneCalls.antt =====
-- CreateRoom and the run loop with nothing between their sections.
use ki_han_server_distribute.Base.{
  ℕ, ◌+◌, pos, Bool, true, false, ◌&&◌, Option, none, some, List, [], ◌∷◌, ◌≡◌, refl, ap, sym,
  subst, ◌∙◌, inl, inr, if◌then◌else◌, ◌==◌, nat_eq, nat_beq_iff, ltb, Option-cases, Bool-cases,
}
use mathlib.Core.Path.{fun_ext}
use ki_han_server_distribute.Proto.{Codec, CreateRoomReq, CreateRoomRsp}
use ki_han_server_distribute.Json.{Json}
use ki_han_server_distribute.Room.{
  Room, RoomState, idle, gaming, add_player, is_full, check_all_ready, start_game,
}
use ki_han_server_distribute.Manager.Invariant.{objects-assign_self}
use ki_han_server_distribute.Manager.{
  Manager, assign, apply_method, get_or_create_room, process_state, process_room, process_rooms,
  rooms_to_process, run_loop_round,
}
use ki_han_server_distribute.Control.{
  Game, next_id, initial_next_room_id, read_player, add_value, add_values, add_parsed, respond,
  create_room,
}
use ki_han_server_distribute.Threads.{Task, ret, alone, alone_then, ◌>>=◌}
use ki_han_server_distribute.Locks.Rooms.{
  fetch_add, store_back, get_or_create_task, added, add_player_task, add_each, add_all, create_task,
  idle_room, loop_room, loop_rooms, round_task,
}
use ki_han_server_distribute.Locks.Alone.{around}
use ki_han_server_distribute.Locks.{read, edit}

assign_same : (p : ℕ) (m : Manager) → assign p (m.objects p) m ≡ m
unfolding assign
assign_same p m =
    ap (λ (f : ℕ → Room). record m { objects = f })
      (fun_ext (λ q. elim (Bool-cases (p == q)) [
        | inl hit ↦ let e : p ≡ q = (nat_beq_iff p q).0 hit in rw (hit, e) refl
        | inr miss ↦ rw miss refl
      ]))

assign_twice : (p : ℕ) (r r' : Room) (m : Manager) → assign p r' (assign p r m) ≡ assign p r' m
unfolding assign
assign_twice p r r' m =
    ap (λ (f : ℕ → Room). record m { objects = f })
      (fun_ext
        (λ q. elim (Bool-cases (p == q)) [ inl hit ↦ rw hit refl | inr miss ↦ rw miss refl ]))

store_back-alone :
    (past : Bool) (g : Game)
    → alone (store_back past) g
      ≡ some (tt, record g { next_room_id = if past then 1000 else g.next_room_id })
unfolding store_back initial_next_room_id alone
store_back-alone true g = refl
store_back-alone false g = refl

-- The process with another room behind a pointer.
abbrev placed : Game → ℕ → Room → Game
placed g p r = record g { manager = assign p r g.manager }

module _ ⦃js : Json⦄ where
  open js use {Value}

  unchanged :
      (p : ℕ) (b : Bool) (g : Game)
      → ◌≡◌ {A = Option (Bool × Game)} (some (b, g)) (some (b, placed g p (g.manager.objects p)))
  unchanged p b g =
      ap (λ (m : Manager). some (b, record g { manager = m })) (sym (assign_same p g.manager))

  abbrev values_after : Room → List Value → Option Room → Room × Bool
  values_after r vs none = (r, false)
  values_after r vs (some r') = add_values r' vs

  -- The rest of the loop behind AddPlayer.
  add_each_then :
      (p : ℕ) (vs : List Value) (o : Option Room) (g : Game)
      → ((g' : Game)
          → let (r, through) = add_values (g'.manager.objects p) vs in
            alone (add_each p vs) g' ≡ some (through, placed g' p r))
      → let (r', on) = added o (g.manager.objects p) in
        let (r, through) = values_after (g.manager.objects p) vs o in
        alone (if on then add_each p vs else ret false) (placed g p r')
        ≡ some (through, placed g p r)
  unfolding added alone
  add_each_then p vs none g rest = refl
  add_each_then p vs (some r) g rest =
      rest (placed g p r)
      ∙ rw (objects-assign_self p r g.manager, assign_twice p r _ g.manager) refl

  add_each-alone :
      (p : ℕ) (vs : List Value) (g : Game)
      → let (r, through) = add_values (g.manager.objects p) vs in
        alone (add_each p vs) g ≡ some (through, placed g p r)
  unfolding add_values add_each add_value add_player_task alone ◌>>=◌
  add_each-alone p [] g = unchanged p true g
  add_each-alone p (v ∷ vs) g = elim (Option-cases (read_player v)) [
    | inl e ↦ rw (e, add_each, add_values) (unchanged p false g)
    | inr ((u, n, c), e) ↦
        rw (e, add_each, add_values)
          (add_each_then p vs (add_player (g.manager.objects p) u n c) g
            (λ g'. add_each-alone p vs g'))
  ]

  add_all-alone :
      (p : ℕ) (o : Option Value) (g : Game)
      → let (r, through) = add_parsed (g.manager.objects p) o in
        alone (add_all p o) g ≡ some (through, placed g p r)
  unfolding add_all add_parsed alone
  add_all-alone p none g = unchanged p false g
  add_all-alone p (some players) g = add_each-alone p (js.elements players) g

  respond-alone :
      (n p : ℕ) (o : Option Value) (g : Game)
      → let (r, through) = add_parsed (g.manager.objects p) o in
        alone (add_all p o >>= λ done. ret (respond n done)) g
        ≡ some (respond n through, placed g p r)
  unfolding alone
  respond-alone n p o g =
      let (r, through) = add_parsed (g.manager.objects p) o in
      alone_then (add_all p o) (λ done. ret (respond n done)) g (placed g p r) through
        (add_all-alone p o g)

  -- A call of CreateRoom whose sections nothing comes between does what create_room does in one
  -- step, with the same response.
  pub create_task-alone :
      (req : CreateRoomReq) (g : Game)
      → let (g', rsp) = create_room g req in alone (create_task req) g ≡ some (rsp, g')
  unfolding create_task create_room fetch_add store_back get_or_create_task next_id
      initial_next_room_id alone ◌>>=◌
  create_task-alone req g =
      let n = g.next_room_id in
      let (m, p) = get_or_create_room (pos n) g.manager in
      let o = js.parse req.player_list_json in
      let rest : Unit {0} → Task Game CreateRoomRsp =
        λ a. get_or_create_task n >>= λ p. add_all p o >>= λ through. ret (respond n through) in
      alone_then (store_back (ltb 1000000000 n)) rest (record g { next_room_id = n + 1 }) _ tt
        (store_back-alone (ltb 1000000000 n) (record g { next_room_id = n + 1 }))
      ∙ respond-alone n p o (record { manager = m; next_room_id = next_id n })

-- A change behind two tests, the second read in a section of its own.
edit_if-alone :
    (b : Bool) (f : Manager → Manager) (g : Game)
    → alone (if b then edit f else ret tt) g
      ≡ around g (some (if b then f g.manager else g.manager))
unfolding alone
edit_if-alone true f g = refl
edit_if-alone false f g = refl

guarded-alone :
    (a : Bool) (b : Manager → Bool) (f : Manager → Manager) (g : Game)
    → alone (if a then read b >>= (λ ready. if ready then edit f else ret tt) else ret tt) g
      ≡ around g (some (if a && b g.manager then f g.manager else g.manager))
unfolding alone ◌>>=◌
guarded-alone true b f g = edit_if-alone (b g.manager) f g
guarded-alone false b f g = refl

module _ ⦃pb : Codec⦄ where
  idle_room-alone :
      (p : ℕ) (g : Game)
      → alone (idle_room p idle) g ≡ around g (some (process_state idle p g.manager))
  unfolding idle_room process_state alone ◌>>=◌
  idle_room-alone p g =
      guarded-alone (is_full (g.manager.objects p)) (λ m. check_all_ready (m.objects p))
        (apply_method p start_game) g

  loop_room-alone :
      (p : ℕ) (state : RoomState) (g : Game)
      → (g.manager.objects p).state ≡ state
      → alone (loop_room p state) g ≡ around g (some (process_state state p g.manager))
  unfolding loop_room alone ◌>>=◌
  loop_room-alone p gaming g e = unfold process_state in refl
  loop_room-alone p idle g e =
      subst (λ st. alone (idle_room p st) g ≡ around g (some (process_state idle p g.manager)))
        (sym e) (idle_room-alone p g)

  loop_rooms-alone :
      (ps : List ℕ) (g : Game)
      → alone (loop_rooms ps) g ≡ around g (some (process_rooms ps g.manager))
  unfolding loop_rooms process_rooms alone ◌>>=◌
  loop_rooms-alone [] g = refl
  loop_rooms-alone (p ∷ ps) g =
      alone_then (loop_room p (g.manager.objects p).state) (λ a. loop_rooms ps) g _ tt
        (unfold process_room in loop_room-alone p (g.manager.objects p).state g refl)
      ∙ loop_rooms-alone ps (record g { manager = process_room p g.manager })

  -- A round of the run loop whose sections nothing comes between does what the round in one step
  -- does.
  pub round_task-alone :
      (g : Game) → alone round_task g ≡ around g (some (run_loop_round g.manager))
  unfolding round_task run_loop_round alone ◌>>=◌
  round_task-alone g = loop_rooms-alone (rooms_to_process g.manager) g
