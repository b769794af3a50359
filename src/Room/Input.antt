-- ===== src/Room/Input.antt =====
-- `PushInput` in room.cpp: which inputs enter a frame, and what they leave there.
use ki_han_server_distribute.Base.{
  ℕ, ◌/◌, ◌%◌, ◌^◌, ◌<◌, ◌≤◌, ℤ, Option, none, some, [], ◌∷◌, ◌≡◌, refl, ◌∙◌, inl, inr, ◌⊎◌, arith,
  nat_eq, int_eq, length, ◌++◌, int_beq_iff, Option-cases,
}
use ki_han_server_distribute.Base.Map.{find, find-set, find-set_self}
use ki_han_server_distribute.Base.Bytes.{Bytes, be_uint32-eq}
use ki_han_server_distribute.Proto.{RoomFrame}
use ki_han_server_distribute.Room.{
  Room, Player, gaming, push_input, store_input, input_frame_id, action_of,
}

-- The six bytes of game_server.md: the frame id, big-endian, the joystick and the buttons.
unfoldable pub encode_input : ℕ → ℕ → ℕ → Bytes
encode_input f joystick buttons =
    (f / 2 ^ 24) ∷ (f / 2 ^ 16 % 256) ∷ (f / 2 ^ 8 % 256) ∷ (f % 256) ∷ joystick ∷ buttons ∷ []

-- The frame id that PushInput reads from an encoded input is the one that was encoded.
pub input_frame_id-encode_input :
    (f joystick buttons : ℕ) → f < 2 ^ 32 → input_frame_id (encode_input f joystick buttons) ≡ f
unfolding input_frame_id encode_input
input_frame_id-encode_input f joystick buttons h =
    be_uint32-eq (f / 2 ^ 24) (f / 2 ^ 16 % 256) (f / 2 ^ 8 % 256) (f % 256) (omega arith)
      (omega arith) (omega arith)
    ∙ omega arith

-- An encoded input for a frame that is over changes nothing, whoever sends it.
pub push_input_stale :
    (r : Room) (uid f joystick buttons : ℕ)
    → f < 2 ^ 32
    → f < r.current_frame.frame_id
    → push_input r uid (encode_input f joystick buttons) ≡ r
unfolding push_input
push_input_stale r uid f joystick buttons fits old = elim (Option-cases (find uid r.players)) [
  | inl e ↦ rw e (ground arith)
  | inr (p, e) ↦ rw e (ground (arith, input_frame_id-encode_input f joystick buttons fits))
]

-- In a room in play, the first encoded input of a player for the frame in play, or for a later one,
-- is stored under the player's game id as its last two bytes.
pub push_input_stores :
    (r : Room) (uid f joystick buttons : ℕ) (p : Player)
    → r.state ≡ gaming
    → find uid r.players ≡ some p
    → f < 2 ^ 32
    → r.current_frame.frame_id ≤ f
    → find p.game_id r.current_frame.raw_inputs ≡ none
    → find p.game_id (push_input r uid (encode_input f joystick buttons)).current_frame.raw_inputs
      ≡ some (joystick ∷ buttons ∷ [])
unfolding push_input encode_input
push_input_stores r uid f joystick buttons p playing found fits now empty =
    rw (playing, found)
      (ground (
        arith,
        input_frame_id-encode_input f joystick buttons fits,
        find-set_self p.game_id (joystick ∷ buttons ∷ []) r.current_frame.raw_inputs,
      ))

-- What an input stands for in a frame: the two bytes behind its first four, or two zeros where it is
-- too short for them.
abbrev pub IsAction : Bytes → Bytes → Type 0
IsAction raw a =
    ((front : Bytes) × (x : ℕ) × (y : ℕ) × (rest : Bytes) × (length front ≡ 4)
      × (raw ≡ front ++ (x ∷ y ∷ rest))
      × (a ≡ x ∷ y ∷ []))
    ⊎ (length raw < 6) × (a ≡ 0 ∷ 0 ∷ [])

action_of-IsAction : (raw : Bytes) → IsAction raw (action_of raw)
unfolding action_of
action_of-IsAction [] = inr (omega arith, refl)
action_of-IsAction (a ∷ []) = inr (omega arith, refl)
action_of-IsAction (a ∷ b ∷ []) = inr (omega arith, refl)
action_of-IsAction (a ∷ b ∷ c ∷ []) = inr (omega arith, refl)
action_of-IsAction (a ∷ b ∷ c ∷ d ∷ []) = inr (omega arith, refl)
action_of-IsAction (a ∷ b ∷ c ∷ d ∷ x ∷ []) = inr (omega arith, refl)
action_of-IsAction (a ∷ b ∷ c ∷ d ∷ x ∷ y ∷ rest) =
    inl (a ∷ b ∷ c ∷ d ∷ [], x, y, rest, refl, refl, ground arith)

-- The entry that an input of `p` has put into the frame, where there was none.
pub record Entry (r : Room) (p : Player) (raw : Bytes) (g : ℤ) (after : Option Bytes) : Type 0 where
  pub playing : r.state ≡ gaming
  pub sender : p.game_id ≡ g
  pub empty : find g r.current_frame.raw_inputs ≡ none
  pub long : 4 ≤ length raw
  pub in_time : r.current_frame.frame_id ≤ input_frame_id raw
  pub stored : (a : Bytes) × (after ≡ some a) × IsAction raw a

store_input_change :
    (game_id g : ℤ) (raw : Bytes) (f : RoomFrame)
    → (find g (store_input game_id raw f).raw_inputs ≡ find g f.raw_inputs)
      ⊎ (game_id ≡ g)
        × (find g f.raw_inputs ≡ none)
        × (find g (store_input game_id raw f).raw_inputs ≡ some (action_of raw))
unfolding store_input
store_input_change game_id g raw f = elim (Option-cases (find game_id f.raw_inputs)) [
  | inr (a, held) ↦ inl (rw held refl)
  | inl empty ↦
      ground (arith, find-set game_id g (action_of raw) f.raw_inputs, int_beq_iff game_id g)
]

-- PushInput has let an input of `p` through its checks.
record Accepts (r : Room) (p : Player) (raw : Bytes) (r' : Room) : Type 0 where
  playing : r.state ≡ gaming
  long : 4 ≤ length raw
  in_time : r.current_frame.frame_id ≤ input_frame_id raw
  result : r' ≡ record r { current_frame = store_input p.game_id raw r.current_frame }

push_input_tests :
    (r : Room) (uid : ℕ) (raw : Bytes) (p : Player)
    → find uid r.players ≡ some p
    → (push_input r uid raw ≡ r) ⊎ Accepts r p raw (push_input r uid raw)
unfolding push_input
push_input_tests r uid raw p e = ground arith

push_input_cases :
    (r : Room) (uid : ℕ) (raw : Bytes)
    → (push_input r uid raw ≡ r)
      ⊎ ((p : Player) × (find uid r.players ≡ some p) × Accepts r p raw (push_input r uid raw))
push_input_cases r uid raw = elim (Option-cases (find uid r.players)) [
  | inl e ↦ inl (unfold push_input in rw e (ground arith))
  | inr (p, e) ↦ elim (push_input_tests r uid raw p e) [
    | inl same ↦ inl same
    | inr through ↦ inr (p, e, through)
  ]
]

-- Whatever input arrives, each entry of the frame stays as it is, or is new: then the room is in
-- play, the entry is the sender's own and was empty, the input is long enough and not for an earlier
-- frame, and the entry is the two bytes behind the input's first four, or two zeros where the input
-- has fewer than six. So the first input of a player in a frame is the one that counts.
pub push_input_change :
    (r : Room) (uid : ℕ) (raw : Bytes) (g : ℤ)
    → (find g (push_input r uid raw).current_frame.raw_inputs ≡ find g r.current_frame.raw_inputs)
      ⊎ ((p : Player) × (find uid r.players ≡ some p)
          × Entry r p raw g (find g (push_input r uid raw).current_frame.raw_inputs))
push_input_change r uid raw g = elim (push_input_cases r uid raw) [
  | inl same ↦ inl (rw same)
  | inr (p, found, a) ↦ elim (store_input_change p.game_id g raw r.current_frame) [
    | inl same ↦ inl (rw a.result same)
    | inr (own, empty, stored) ↦ inr (
      p,
      found,
      record {
        playing = a.playing;
        sender = own;
        empty = empty;
        long = a.long;
        in_time = a.in_time;
        stored = (action_of raw, rw a.result stored, action_of-IsAction raw);
      },
    )
  ]
]
