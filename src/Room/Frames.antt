-- ===== src/Room/Frames.antt =====
-- Lockstep: what a room in play sends while inputs and ticks reach it in any order.
use mathlib.Core.Path.{ap₂}
use mathlib.Core.List.{append-nil, append_assoc}
use ki_han_server_distribute.Base.{
  ℕ, zero, suc, ◌+◌, ◌%◌, ◌^◌, true, some, List, [], ◌∷◌, ◌++◌, map, ◌≡◌, refl, sym, ap, ◌∙◌, arith,
  nat_eq, int_eq, elem, Distinct,
}
use ki_han_server_distribute.Base.Map.{find}
use ki_han_server_distribute.Base.Bytes.{Bytes}
use ki_han_server_distribute.Proto.{Codec, RoomFrame, GatewayResponse}
use ki_han_server_distribute.Sessions.{Session, Sessions, response}
use ki_han_server_distribute.Sessions.Deliveries.{
  deliveries, send_to_players-deliveries, received, received-append, Alone, received-deliveries,
}
use ki_han_server_distribute.Room.Methods.{push_input-SamePlayers}
use ki_han_server_distribute.Room.{
  Room, gaming, push_input, tick, start_game, counted_frame, next_frame,
}

-- What reaches a room in play: a player's input, or the next tick of the run loop.
pub data Event : Type 0 where
  input : ℕ → Bytes → Event
  ticks : Event

-- The room after an event, apart from what it sends.
unfoldable pub advance : Event → Room → Room
advance (input uid raw) r = push_input r uid raw
advance ticks r = record r { current_frame = next_frame (counted_frame r) }

-- The frames that the ticks of a run send, in order.
unfoldable pub frames : List Event → Room → List RoomFrame
unfolding advance
frames [] r = []
frames (input uid raw ∷ es) r = frames es (push_input r uid raw)
frames (ticks ∷ es) r = counted_frame r ∷ frames es (advance ticks r)

unfoldable pub count_ticks : List Event → ℕ
count_ticks [] = 0
count_ticks (input uid raw ∷ es) = count_ticks es
count_ticks (ticks ∷ es) = suc (count_ticks es)

-- n, n + 1, …: k numbers, as 32-bit words.
unfoldable pub consecutive : ℕ → ℕ → List ℕ
consecutive zero n = []
consecutive (suc k) n = (n % 2 ^ 32) ∷ consecutive k (n + 1)

frame_id-push_input :
    (r : Room) (uid : ℕ) (raw : Bytes)
    → (push_input r uid raw).current_frame.frame_id ≡ r.current_frame.frame_id
unfolding push_input
frame_id-push_input r uid raw = ground arith

-- The frames of a run are numbered one after the other, modulo 2 ^ 32.
pub frames-consecutive :
    (es : List Event) (r : Room) (n : ℕ)
    → r.current_frame.frame_id ≡ n % 2 ^ 32
    → map (λ f. f.frame_id) (frames es r) ≡ consecutive (count_ticks es) n
unfolding frames count_ticks consecutive counted_frame next_frame
frames-consecutive [] r n h = refl
frames-consecutive (input uid raw ∷ es) r n h =
    frames-consecutive es (push_input r uid raw) n (frame_id-push_input r uid raw ∙ h)
frames-consecutive (ticks ∷ es) r n h =
    ap₂ ◌∷◌ h (frames-consecutive es (advance ticks r) (n + 1) (omega (arith, h)))

module _ ⦃pb : Codec⦄ where
  -- One event, with what it sends.
  unfoldable pub step : Event → Room → Sessions → Room × Sessions
  step (input uid raw) r n = (push_input r uid raw, n)
  step ticks r n = tick r n

  unfoldable pub run : List Event → Room → Sessions → Room × Sessions
  unfolding step
  run [] r n = (r, n)
  run (e ∷ es) r n = let (r', n') = step e r n in run es r' n'

  -- The message of a frame, as a session gets it.
  abbrev pub update : Session → RoomFrame → GatewayResponse
  update s f = (response s 2005 (pb.serialize_room_frame_update (record { frame = f }))).response

  -- A player of a room in play, whose session has a stream of its own.
  pub record InPlay (uid : ℕ) (s : Session) (r : Room) (n : Sessions) : Type 0 where
    pub playing : r.state ≡ gaming
    pub distinct : Distinct r.player_uids
    pub listed : elem uid r.player_uids ≡ true
    pub bound : find uid n.sessions ≡ some s
    pub alone : Alone n.sessions uid s.stream

  module _ (uid : ℕ) (s : Session) where
    input-InPlay :
        (v : ℕ) (raw : Bytes) (r : Room) (n : Sessions)
        → InPlay uid s r n
        → InPlay uid s (push_input r v raw) n
    input-InPlay v raw r n h =
        let same = push_input-SamePlayers r v raw in
        record {
          playing = same.state ∙ h.playing;
          distinct = rw same.uids h.distinct;
          listed = rw same.uids h.listed;
          bound = h.bound;
          alone = h.alone;
        }

    -- What a tick of a room in play does: every player gets the frame, and the next one begins.
    tick_lem :
        (r : Room) (n : Sessions)
        → r.state ≡ gaming
        → tick r n ≡ (
          advance ticks r,
          record n {
            sent =
                n.sent
                ++ deliveries n.sessions r.player_uids 2005
                    (pb.serialize_room_frame_update (record { frame = counted_frame r }));
          },
        )
    unfolding tick advance
    tick_lem r n h = rw (h, send_to_players-deliveries)

    tick-InPlay :
        (r : Room) (n : Sessions) → InPlay uid s r n → InPlay uid s (tick r n).0 (tick r n).1
    tick-InPlay r n h = rw (tick_lem r n h.playing) (
        unfold advance in
        record {
          playing = h.playing;
          distinct = h.distinct;
          listed = h.listed;
          bound = h.bound;
          alone = h.alone;
        })

    received-tick :
        (r : Room) (n : Sessions)
        → InPlay uid s r n
        → received s.stream (tick r n).1.sent
          ≡ received s.stream n.sent ++ update s (counted_frame r) ∷ []
    received-tick r n h = rw (
      tick_lem r n h.playing,
      received-append,
      received-deliveries n.sessions uid s 2005 _ h.bound h.alone r.player_uids h.distinct h.listed,
    )

    -- Lockstep: over any inputs and ticks, a player's stream receives exactly the frames of the
    -- room, each once and in order.
    pub received-run :
        (es : List Event) (r : Room) (n : Sessions)
        → InPlay uid s r n
        → received s.stream (run es r n).1.sent
          ≡ received s.stream n.sent ++ map (update s) (frames es r)
    unfolding run frames
    received-run [] r n h = sym (append-nil (received s.stream n.sent))
    received-run (input v raw ∷ es) r n h =
        received-run es (push_input r v raw) n (input-InPlay v raw r n h)
    received-run (ticks ∷ es) r n h =
        received-run es (tick r n).0 (tick r n).1 (tick-InPlay r n h)
        ∙ rw
            (
              received-tick r n h,
              append_assoc,
              ap (λ (x : Room × Sessions). x.0) (tick_lem r n h.playing),
            )
            refl

    started-InPlay :
        (r : Room) (n : Sessions)
        → Distinct r.player_uids
        → elem uid r.player_uids ≡ true
        → find uid n.sessions ≡ some s
        → Alone n.sessions uid s.stream
        → InPlay uid s (start_game r n).0 (start_game r n).1
    unfolding start_game
    started-InPlay r n d listed bound alone =
        rw send_to_players-deliveries
          (record { playing = refl; distinct = d; listed = listed; bound = bound; alone = alone })

    received-start_game :
        (r : Room) (n : Sessions)
        → Distinct r.player_uids
        → elem uid r.player_uids ≡ true
        → find uid n.sessions ≡ some s
        → Alone n.sessions uid s.stream
        → received s.stream (start_game r n).1.sent
          ≡ received s.stream n.sent
            ++ (response s 2003 (pb.serialize_game_start_ntf (record { room_id = r.id }))).response
              ∷ []
    unfolding start_game
    received-start_game r n d listed bound alone = rw (
      send_to_players-deliveries,
      received-append,
      received-deliveries n.sessions uid s 2003 _ bound alone r.player_uids d listed,
    )

    -- In a room without a uid twice, from the start of a game on and over any inputs and ticks, the
    -- stream of a player of the room whose
    -- session is its own receives the start message and then exactly the frames of the room, each
    -- once and in order; and these are numbered 0, 1, 2, … modulo 2 ^ 32, one for each tick.
    pub received-game :
        (r : Room) (n : Sessions) (es : List Event)
        → Distinct r.player_uids
        → elem uid r.player_uids ≡ true
        → find uid n.sessions ≡ some s
        → Alone n.sessions uid s.stream
        → let r' = (start_game r n).0 in
          (received s.stream (run es r' (start_game r n).1).1.sent
            ≡ received s.stream n.sent
              ++ (response s 2003
                  (pb.serialize_game_start_ntf (record { room_id = r.id }))).response
                ∷ map (update s) (frames es r'))
          × (map (λ f. f.frame_id) (frames es r') ≡ consecutive (count_ticks es) 0)
    received-game r n es d listed bound alone =
        let (r', n') = start_game r n in
        (
          received-run es r' n' (started-InPlay r n d listed bound alone)
              ∙ rw (received-start_game r n d listed bound alone, append_assoc) refl,
          frames-consecutive es r' 0 (unfold start_game in refl),
        )
