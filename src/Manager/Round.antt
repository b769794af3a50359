-- ===== src/Manager/Round.antt =====
-- A whole round of `RunLoop` in room_manager.cpp.
use ki_han_server_distribute.Base.{
  ℕ, ℤ, true, false, ◌&&◌, none, some, List, [], ◌∷◌, map, ◌≡◌, refl, sym, ◌∙◌, inl, inr, arith,
  if◌then◌else◌, ◌==◌, nat_eq, int_eq, nat_beq_iff, int_beq_iff, Bool-cases, elem, Distinct,
}
use ki_han_server_distribute.Base.Map.{Map, find, Unique}
use ki_han_server_distribute.Proto.{Codec}
use ki_han_server_distribute.Sessions.{Sessions}
use ki_han_server_distribute.Room.{
  Room, RoomState, idle, gaming, is_full, check_all_ready, tick, start_game,
}
use ki_han_server_distribute.Manager.Invariant.{Inv, objects-assign_self}
use ki_han_server_distribute.Manager.Loop.{process_room_other}
use ki_han_server_distribute.Manager.{
  Manager, apply_method, process_state, process_room, process_rooms, run_loop_round,
  rooms_to_process,
}

abbrev pointers : Map ℤ ℕ → List ℕ
pointers table = map (λ pair. pair.1) table

find-behind :
    (table : Map ℤ ℕ) (j i : ℤ) (q p : ℕ)
    → find j table ≡ none
    → find i table ≡ some p
    → find i ((j, q) ∷ table) ≡ some p
unfolding find
find-behind table j i q p free found = elim (Bool-cases (j == i)) [
  | inl hit ↦
      let e : j ≡ i = (int_beq_iff j i).0 hit in
      let here : find i table ≡ none = rw (← e) free in cc
  | inr miss ↦ rw miss found
]

-- A key of the table that leads to a pointer, for each pointer of it.
key_of :
    (table : Map ℤ ℕ) (p : ℕ)
    → Unique table
    → elem p (pointers table) ≡ true
    → (i : ℤ) × (find i table ≡ some p)
unfolding find elem
key_of [] p u h = absurd (ground arith)
key_of ((j, q) ∷ table) p u h = elim (Bool-cases (q == p)) [
  | inl hit ↦ (j, ground (arith, int_beq_iff j j, nat_beq_iff q p))
  | inr miss ↦
      let (i, found) = key_of table p u.1 (ground arith) in (i, find-behind table j i q p u.0 found)
]

-- Rooms of different ids are different rooms.
Distinct-pointers :
    (table : Map ℤ ℕ) (name : ℕ → ℤ)
    → Unique table
    → ((i : ℤ) (p : ℕ) → find i table ≡ some p → name p ≡ i)
    → Distinct (pointers table)
unfolding find elem
Distinct-pointers [] name u h = tt
Distinct-pointers ((j, q) ∷ table) name u h = (
  elim (Bool-cases (elem q (pointers table))) [
    | inr miss ↦ miss
    | inl hit ↦
        let (i, found) = key_of table q u.1 hit in
        let behind : name q ≡ i = h i q (find-behind table j i q q u.0 found) in
        let front : name q ≡ j = h j q (ground (arith, int_beq_iff j j)) in
        let free : find i table ≡ none = rw (← behind, front) u.0 in cc
  ],
  Distinct-pointers table name u.1 λ i p found. h i p (find-behind table j i q p u.0 found),
)

module _ ⦃pb : Codec⦄ where
  tick_room : (r : Room) (n n' : Sessions) → (tick r n).0 ≡ (tick r n').0
  unfolding tick
  tick_room r n n' = ground arith

  start_game_room : (r : Room) (n n' : Sessions) → (start_game r n).0 ≡ (start_game r n').0
  unfolding start_game
  start_game_room r n n' = refl

  apply_method_local :
      (p : ℕ) (method : Room → Sessions → Room × Sessions) (m m' : Manager)
      → ((r : Room) (n n' : Sessions) → (method r n).0 ≡ (method r n').0)
      → m.objects p ≡ m'.objects p
      → (apply_method p method m).objects p ≡ (apply_method p method m').objects p
  unfolding apply_method
  apply_method_local p method m m' blind same =
      objects-assign_self p (method (m.objects p) m.net).0 m
      ∙ (rw same (blind (m'.objects p) m.net m'.net)
          ∙ sym (objects-assign_self p (method (m'.objects p) m'.net).0 m'))

  process_state_local :
      (s : RoomState) (p : ℕ) (m m' : Manager)
      → m.objects p ≡ m'.objects p
      → (process_state s p m).objects p ≡ (process_state s p m').objects p
  unfolding process_state
  process_state_local gaming p m m' same = apply_method_local p tick m m' tick_room same
  process_state_local idle p m m' same =
      elim (Bool-cases (is_full (m'.objects p) && check_all_ready (m'.objects p))) [
        | inl go ↦
            let go_too : (is_full (m.objects p) && check_all_ready (m.objects p)) ≡ true =
              rw same go in
            rw (go, go_too) (apply_method_local p start_game m m' start_game_room same)
        | inr wait ↦
            let wait_too : (is_full (m.objects p) && check_all_ready (m.objects p)) ≡ false =
              rw same wait in
            rw (wait, wait_too) same
      ]

  process_room_local :
      (p : ℕ) (m m' : Manager)
      → m.objects p ≡ m'.objects p
      → (process_room p m).objects p ≡ (process_room p m').objects p
  unfolding process_room
  process_room_local p m m' same = rw same (process_state_local (m'.objects p).state p m m' same)

  process_rooms_skip :
      (ps : List ℕ) (q : ℕ) (m : Manager)
      → elem q ps ≡ false
      → (process_rooms ps m).objects q ≡ m.objects q
  unfolding process_rooms elem
  process_rooms_skip [] q m h = refl
  process_rooms_skip (p ∷ ps) q m h =
      process_rooms_skip ps q (process_room p m) (ground arith)
      ∙ process_room_other p q m (ground (arith, nat_beq_iff p q))

  process_rooms_once :
      (ps : List ℕ) (p : ℕ) (m : Manager)
      → Distinct ps
      → elem p ps ≡ true
      → (process_rooms ps m).objects p ≡ (process_room p m).objects p
  unfolding process_rooms elem
  process_rooms_once [] p m d h = absurd (ground arith)
  process_rooms_once (x ∷ xs) p m d h = elim (Bool-cases (x == p)) [
    | inl hit ↦
        let e : x ≡ p = (nat_beq_iff x p).0 hit in
        let gone : elem p xs ≡ false = rw (← e) d.0 in
        process_rooms_skip xs p (process_room x m) gone ∙ rw e refl
    | inr miss ↦
        process_rooms_once xs p (process_room x m) d.1 (ground arith)
        ∙ process_room_local p (process_room x m) m
            (process_room_other x p m (ground (arith, nat_beq_iff x p)))
  ]

  -- On well-formed rooms one round of the run loop does to each registered room exactly what the
  -- loop's body does to it alone, whatever the order of the rooms, and changes no other room
  -- object.
  pub run_loop_round_once :
      (m : Manager) (q : ℕ)
      → Inv m
      → (run_loop_round m).objects q
        ≡ (if elem q (rooms_to_process m) then (process_room q m).objects q else m.objects q)
  unfolding run_loop_round rooms_to_process
  run_loop_round_once m q v = elim (Bool-cases (elem q (pointers m.rooms))) [
    | inl listed ↦ rw listed (
        process_rooms_once (pointers m.rooms) q m
          (Distinct-pointers m.rooms (λ p. (m.objects p).id) v.unique
            λ i p e. (v.registered i p e).1)
          listed)
    | inr other ↦ rw other (process_rooms_skip (pointers m.rooms) q m other)
  ]
