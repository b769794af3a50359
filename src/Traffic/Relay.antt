-- ===== src/Traffic/Relay.antt =====
-- gameStreamRecvLoop of gateway/network/session.go behind the rooms of game_server/src/room.cpp: the
-- way of a game to a client.
use mathlib.Core.List.{append-nil, append_assoc}
use ki_han_server_distribute.Base.{
  ℕ, ◌^◌, ◌<◌, true, false, Option, none, some, List, [], ◌∷◌, ◌++◌, map, ◌≡◌, refl, ap, ◌∙◌, arith,
  length, All, elem, Distinct, nat_eq,
}
use ki_han_server_distribute.Base.Map.{find}
use ki_han_server_distribute.Base.Bytes.{Bytes}
use ki_han_server_distribute.Proto.{Codec, RoomFrame, GatewayResponse}
use ki_han_server_distribute.Sessions.{Session, Sessions, response}
use ki_han_server_distribute.Sessions.Deliveries.{Alone, received}
use ki_han_server_distribute.Room.{Room, start_game}
use ki_han_server_distribute.Room.Frames.{
  Event, run, frames, count_ticks, consecutive, update, received-game,
}
use ki_han_server_distribute.Gateway.{Gateway, Effect, emit, deliver}
use ki_han_server_distribute.Gateway.Sending.{client_reads, send-Arrives}
use ki_han_server_distribute.Traffic.Answers.{Answered, deliver-Answered}
use ki_han_server_distribute.Traffic.{game_stream_recv}

-- The loop over what the stream receives.
unfoldable pub relay : ℕ → List GatewayResponse → Gateway → Option Gateway
relay p [] g = some g
relay p (r ∷ rs) g = elim (game_stream_recv p r g) [ none ↦ none | some g' ↦ relay p rs g' ]

abbrev read_first : Option (ℕ × Bytes) → List (ℕ × Bytes) → List (ℕ × Bytes)
read_first none ms = ms
read_first (some m) ms = m ∷ ms

-- The messages that the client of session p reads of the effects, in order.
unfoldable pub read_by : ℕ → Gateway → List Effect → List (ℕ × Bytes)
read_by p g [] = []
read_by p g (e ∷ es) = read_first (client_reads p (g.objects p) e) (read_by p g es)

-- A response that does not kick, with a command of 16 bits and a payload that fits a frame.
pub record Plain (r : GatewayResponse) : Type 0 where
  pub stays : r.kick_client ≡ false
  pub command : r.cmd_id < 2 ^ 16
  pub short : length r.payload < 65532

abbrev pub message : GatewayResponse → ℕ × Bytes
message r = (r.cmd_id, r.payload)

read_first_ap :
    (o : Option (ℕ × Bytes)) (ms xs ys : List (ℕ × Bytes))
    → ms ≡ xs ++ ys
    → read_first o ms ≡ read_first o xs ++ ys
read_first_ap none ms xs ys e = e
read_first_ap (some m) ms xs ys e = ap (◌∷◌ m) e

read_by-append :
    (p : ℕ) (g : Gateway) (xs ys : List Effect)
    → read_by p g (xs ++ ys) ≡ read_by p g xs ++ read_by p g ys
unfolding read_by
read_by-append p g [] ys = refl
read_by-append p g (x ∷ xs) ys =
    read_first_ap (client_reads p (g.objects p) x) _ _ _ (read_by-append p g xs ys)

-- A session that is connected, with an id and a key of 32 bits.
pub record IsOpen (p : ℕ) (g : Gateway) : Type 0 where
  pub on : (g.objects p).connected ≡ true
  pub id32 : (g.objects p).id < 2 ^ 32
  pub key32 : (g.objects p).key < 2 ^ 32

pub deliver-Plain :
    (p channel : ℕ) (r : GatewayResponse) (g : Gateway)
    → IsOpen p g
    → Plain r
    → (e : Effect) × (deliver p channel r g ≡ some (emit e g))
      × (client_reads p (g.objects p) e ≡ some (message r))
unfolding Answered
deliver-Plain p channel r g h plain =
    let (e, sent, read) =
      deliver-Answered p channel r g
        (send-Arrives p r g plain.command h.id32 h.key32 channel h.on plain.short) in
    (e, sent ∙ rw plain.stays refl, read)

-- Any plain responses, in the order in which the stream receives them: the loop does not panic and
-- changes no session, and the client reads exactly these messages behind what it read before.
pub relay-read_by :
    (p : ℕ) (rs : List GatewayResponse) (g : Gateway)
    → IsOpen p g
    → All Plain rs
    → (g' : Gateway) × (relay p rs g ≡ some g')
      × (g'.objects ≡ g.objects)
      × (read_by p g g'.effects ≡ read_by p g g.effects ++ map message rs)
unfolding relay game_stream_recv emit read_by
relay-read_by p [] g h plain = (g, refl, refl, rw append-nil refl)
relay-read_by p (r ∷ rs) g h plain =
    let (e, sent, read) = deliver-Plain p 1 r g h plain.0 in
    let (g', went, same, more) =
      relay-read_by p rs (emit e g) (record { on = h.on; id32 = h.id32; key32 = h.key32 })
        plain.1 in
    let one : read_by p g (e ∷ []) ≡ message r ∷ [] = rw read refl in
    (
      g',
      rw (sent, relay) went,
      same,
      more ∙ rw (read_by-append p g g.effects (e ∷ []), one, append_assoc) refl,
    )

module _ ⦃pb : Codec⦄ where
  abbrev pub frame_message : RoomFrame → ℕ × Bytes
  frame_message f = (2005, pb.serialize_room_frame_update (record { frame = f }))

  abbrev pub start_message : Room → ℕ × Bytes
  start_message r = (2003, pb.serialize_game_start_ntf (record { room_id = r.id }))

  -- What the room of a game sends on the stream of a session.
  abbrev pub game_sent : Session → Room → List RoomFrame → List GatewayResponse
  game_sent s r fs =
      (response s 2003 (pb.serialize_game_start_ntf (record { room_id = r.id }))).response
      ∷ map (update s) fs

  updates-Plain :
      (s : Session) (fs : List RoomFrame)
      → All (λ f. length (frame_message f).1 < 65532) fs
      → All Plain (map (update s) fs)
  unfolding response
  updates-Plain s [] h = tt
  updates-Plain s (f ∷ fs) h =
      (record { stays = refl; command = omega arith; short = h.0 }, updates-Plain s fs h.1)

  messages-update :
      (s : Session) (fs : List RoomFrame) → map message (map (update s) fs) ≡ map frame_message fs
  unfolding response
  messages-update s [] = refl
  messages-update s (f ∷ fs) = ap (◌∷◌ (frame_message f)) (messages-update s fs)

  -- A game from the room to a client's screen. In a room without a uid twice, from the start of a
  -- game on and over any inputs and ticks, for a player of the room whose battle stream is no other
  -- player's, and whose gateway session is connected with an id and a key of 32 bits: what the
  -- stream receives since the start, where all payloads are shorter than 65532 bytes, makes
  -- gameStreamRecvLoop neither panic nor change a session, and the client reads of it the start
  -- message and then exactly the room's frames, each once and in order, numbered 0, 1, 2, … modulo
  -- 2 ^ 32.
  pub game_relayed :
      (uid : ℕ) (s : Session) (r : Room) (n : Sessions) (es : List Event) (p : ℕ) (g : Gateway)
      → Distinct r.player_uids
      → elem uid r.player_uids ≡ true
      → find uid n.sessions ≡ some s
      → Alone n.sessions uid s.stream
      → IsOpen p g
      → length (start_message r).1 < 65532
      → All (λ f. length (frame_message f).1 < 65532) (frames es (start_game r n).0)
      → let (r', n') = start_game r n in
        let sent = game_sent s r (frames es r') in
        (received s.stream (run es r' n').1.sent ≡ received s.stream n.sent ++ sent)
        × (map (λ f. f.frame_id) (frames es r') ≡ consecutive (count_ticks es) 0)
        × ((g' : Gateway) × (relay p sent g ≡ some g')
            × (g'.objects ≡ g.objects)
            × (read_by p g g'.effects
                ≡ read_by p g g.effects ++ start_message r ∷ map frame_message (frames es r')))
  unfolding response
  game_relayed uid s r n es p g distinct listed bound alone open_ start_short shorts =
      let fs = frames es (start_game r n).0 in
      let (got, numbered) = received-game uid s r n es distinct listed bound alone in
      let first : Plain (response s 2003 (start_message r).1).response = record {
        stays = refl;
        command = omega arith;
        short = start_short;
      } in
      let (g', went, same, reads) =
        relay-read_by p (game_sent s r fs) g open_ (first, updates-Plain s fs shorts) in
      (got, numbered, (g', went, same, reads ∙ rw (messages-update s fs) refl))
