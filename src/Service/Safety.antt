-- ===== src/Service/Safety.antt =====
-- No request makes the battle service throw or dereference a null player.
use ki_han_server_distribute.Base.{
  ℕ, ℤ, Bool, true, false, Option, none, some, List, [], ◌∷◌, ◌≡◌, refl, inl, inr, ◌⊎◌,
  if◌then◌else◌, ◌==◌, nat_eq, length, Bool-cases, Option-cases,
}
use ki_han_server_distribute.Base.Map.{find, find-erase_self}
use ki_han_server_distribute.Base.Bytes.{Bytes}
use ki_han_server_distribute.Proto.{
  Codec, GatewayRequest, EnterRoomReq, PlayerReadyReq, GameOverReq,
}
use ki_han_server_distribute.Sessions.{Session}
use ki_han_server_distribute.Room.Methods.{
  mark_ready-IsValid, mark_ready-id, push_input-SamePlayers, SamePlayers-IsValid, stop_game-IsValid,
  stop_game-id,
}
use ki_han_server_distribute.Room.Snapshot.{
  build_snapshot_json_total, snapshot_text, seated_players,
}
use ki_han_server_distribute.Room.{Player, has_player, get_player, is_gaming}
use ki_han_server_distribute.Manager.Invariant.{
  Inv, SameRooms-Inv, assign-Inv, destroy_room-Inv, apply_method-Inv,
}
use ki_han_server_distribute.Manager.{Manager, get_room, get_room_by_uid, map_uid_to_room}
use ki_han_server_distribute.Service.{
  reply, room_with, enter_found, enter_room, ready_found, player_ready, input_found,
  player_frame_input, finish_room, over_found, game_over, process_req, process_all, open_stream,
  close_stream, abandon, stream_battle, session_of, entered, refused,
}

-- A state that the handler leaves, with the invariant.
abbrev pub Returns : Option Manager → Type 0
Returns r = (m : Manager) × (r ≡ some m) × Inv m

done : {m : Manager} → Inv m → Returns (some m)
done {m} v = (m, refl, v)

either : (b : Bool) {x y : Option Manager} → Returns x → Returns y → Returns (if b then x else y)
either true x y = x
either false x y = y

reply-Inv :
    (s : Session) (c : ℕ) (payload : Bytes) (m : Manager) → Inv m → Inv (reply s c payload m)
unfolding reply
reply-Inv s c payload m v =
    SameRooms-Inv {m = m} (record { rooms = refl; objects = refl; allocated = refl }) v

-- A room that is found with a player in it has that player.
room_with_cases :
    (m : Manager) (i : ℤ) (uid : ℕ)
    → (room_with m i uid ≡ none)
      ⊎ ((p : ℕ) × (room_with m i uid ≡ some p)
          × (get_room m i ≡ some p)
          × (q : Player) × (get_player (m.objects p) uid ≡ some q))
unfolding room_with get_player has_player
room_with_cases m i uid = elim (Option-cases (get_room m i)) [
  | inl e ↦ inl (rw (e, room_with))
  | inr (p, e) ↦ elim (Option-cases (find uid (m.objects p).players)) [
    | inl e' ↦ inl (rw (e, room_with, e'))
    | inr (q, e') ↦ inr (p, rw (e, room_with, e'), e, q, e')
  ]
]

module _ ⦃pb : Codec⦄ where
  enter_room-Returns :
      (s : Session) (uid : ℕ) (req : Option EnterRoomReq) (m : Manager)
      → Inv m
      → Returns (enter_room s uid req m)
  unfolding enter_room enter_found
  enter_room-Returns s uid none m v = (m, refl, v)
  enter_room-Returns s uid (some req) m v = elim (room_with_cases m req.room_id uid) [
    | inl e ↦ (
      reply s 2001 (pb.serialize_enter_room_rsp refused) m,
      rw (e, enter_found),
      reply-Inv s 2001 _ m v,
    )
    | inr (p, e, _, q, player) ↦ (
      reply s 2001
          (pb.serialize_enter_room_rsp (
            entered req.room_id
              (snapshot_text (seated_players (m.objects p).players (m.objects p).player_uids)) q))
          (map_uid_to_room uid req.room_id m),
      rw (e, enter_found, build_snapshot_json_total (m.objects p) (v.valid p), player),
      reply-Inv s 2001 _ _ (
          unfold map_uid_to_room in
          SameRooms-Inv {m = m} (record { rooms = refl; objects = refl; allocated = refl }) v),
    )
  ]

  player_ready-Inv :
      (s : Session) (uid : ℕ) (req : Option PlayerReadyReq) (m : Manager)
      → Inv m
      → Inv (player_ready s uid req m)
  unfolding player_ready ready_found
  player_ready-Inv s uid none m v = v
  player_ready-Inv s uid (some req) m v = elim (Option-cases (room_with m req.room_id uid)) [
    | inl e ↦ rw (e, ready_found) (reply-Inv s 2002 _ m v)
    | inr (p, e) ↦
        rw (e, ready_found)
          (reply-Inv s 2002 _ _ (
            assign-Inv p _ m (mark_ready-id (m.objects p) uid)
              (mark_ready-IsValid (m.objects p) uid (v.valid p)) v))
  ]

  player_frame_input-Inv :
      (uid : ℕ) (payload : Bytes) (m : Manager) → Inv m → Inv (player_frame_input uid payload m)
  unfolding player_frame_input input_found
  player_frame_input-Inv uid payload m v = elim (Option-cases (get_room_by_uid m uid)) [
    | inl e ↦
        rw (e, input_found)
          (elim (Bool-cases (length payload == 6)) [ inl six ↦ rw six v | inr other ↦ rw other v ])
    | inr (p, e) ↦
        let same = push_input-SamePlayers (m.objects p) uid payload in
        let next = assign-Inv p _ m same.id (SamePlayers-IsValid same (v.valid p)) v in
        rw (e, input_found)
          (elim (Bool-cases (length payload == 6)) [
            | inl six ↦ rw six next
            | inr other ↦ rw other v
          ])
  ]

  pub finish_room-Inv : (p winner : ℕ) (m : Manager) → Inv m → Inv (finish_room p winner m)
  unfolding finish_room
  finish_room-Inv p winner m v = destroy_room-Inv _ _ (
      apply_method-Inv p _ m (λ r n. stop_game-id r winner n)
        (λ r n ok. stop_game-IsValid r winner n ok) v)

  game_over-Inv :
      (s : Session) (uid : ℕ) (req : Option GameOverReq) (m : Manager)
      → Inv m
      → Inv (game_over s uid req m)
  unfolding game_over over_found
  game_over-Inv s uid none m v = v
  game_over-Inv s uid (some req) m v = elim (Option-cases (get_room_by_uid m uid)) [
    | inl e ↦ rw (e, over_found) (reply-Inv s 2006 _ m v)
    | inr (p, e) ↦ rw (e, over_found) (reply-Inv s 2006 _ _ (finish_room-Inv p req.winner_uid m v))
  ]

  -- On well-formed rooms every request, of any command and with any payload, is handled without a
  -- fault, and the rooms stay well formed.
  pub process_req_total :
      (s : Session) (req : GatewayRequest) (m : Manager)
      → Inv m
      → (m' : Manager) × (process_req s req m ≡ some m') × Inv m'
  unfolding process_req
  process_req_total s req m v =
      either (req.cmd_id == 2001)
        (enter_room-Returns s req.uid (pb.parse_enter_room_req req.payload) m v)
        (either (req.cmd_id == 2002)
          (done (player_ready-Inv s req.uid (pb.parse_player_ready_req req.payload) m v))
          (either (req.cmd_id == 2004) (done (player_frame_input-Inv req.uid req.payload m v)) (
            either (req.cmd_id == 2006)
              (done (game_over-Inv s req.uid (pb.parse_game_over_req req.payload) m v)) (done v))))

  process_all_total :
      (s : Session) (reqs : List GatewayRequest) (m : Manager)
      → Inv m
      → Returns (process_all s reqs m)
  unfolding process_all
  process_all_total s [] m v = done v
  process_all_total s (req ∷ reqs) m v =
      let (m', e, v') = process_req_total s req m v in
      let (m'', e', v'') = process_all_total s reqs m' v' in (m'', rw (e, process_all) e', v'')

  pub open_stream-Inv : (s : Session) (uid : ℕ) (m : Manager) → Inv m → Inv (open_stream s uid m)
  unfolding open_stream
  open_stream-Inv s uid m v =
      SameRooms-Inv {m = m} (record { rooms = refl; objects = refl; allocated = refl }) v

  abandon-Inv : (uid : ℕ) (o : Option ℕ) (m : Manager) → Inv m → Inv (abandon uid o m)
  unfolding abandon
  abandon-Inv uid none m v = v
  abandon-Inv uid (some p) m v = elim (Bool-cases (is_gaming (m.objects p).state)) [
    | inl playing ↦ rw playing (finish_room-Inv p _ m v)
    | inr quiet ↦ rw quiet v
  ]

  pub close_stream-Inv : (uid : ℕ) (m : Manager) → Inv m → Inv (close_stream uid m)
  unfolding close_stream
  close_stream-Inv uid m v =
      SameRooms-Inv {m = abandon uid (get_room_by_uid m uid) m}
        (record { rooms = refl; objects = refl; allocated = refl })
        (abandon-Inv uid (get_room_by_uid m uid) m v)

  close_stream_gone :
      (uid : ℕ) (m : Manager)
      → (find uid (close_stream uid m).net.sessions ≡ none)
        × (find uid (close_stream uid m).uid_to_room ≡ none)
  unfolding close_stream
  close_stream_gone uid m = (find-erase_self uid _, find-erase_self uid _)

  -- On well-formed rooms a battle stream of at least one request runs to its end without a fault;
  -- then the rooms are well formed, and the uid that the stream was bound to has neither a session
  -- nor a room.
  pub stream_battle_total :
      (stream : ℕ) (req : GatewayRequest) (reqs : List GatewayRequest) (m : Manager)
      → Inv m
      → (m' : Manager) × (stream_battle stream (req ∷ reqs) m ≡ some m')
        × Inv m'
        × (find req.uid m'.net.sessions ≡ none)
        × (find req.uid m'.uid_to_room ≡ none)
  unfolding stream_battle
  stream_battle_total stream req reqs m v =
      let s = session_of stream req in
      let (m', e, v') =
        process_all_total s (req ∷ reqs) (open_stream s req.uid m)
          (open_stream-Inv s req.uid m v) in
      let (gone, unmapped) = close_stream_gone req.uid m' in
      (close_stream req.uid m', rw e refl, close_stream-Inv req.uid m' v', gone, unmapped)
