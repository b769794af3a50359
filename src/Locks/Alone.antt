-- ===== src/Locks/Alone.antt =====
-- A handler whose sections nothing comes between is the handler in one step, as Service.antt has it.
use ki_han_server_distribute.Base.{
  ℕ, ℤ, Bool, true, false, Option, none, some, List, [], ◌∷◌, ◌≡◌, refl, ◌∙◌, inl, inr,
  if◌then◌else◌, ◌==◌, nat_eq, length, int_eq, Option-cases, Bool-cases,
}
use ki_han_server_distribute.Base.Map.{find}
use ki_han_server_distribute.Base.Bytes.{Bytes}
use ki_han_server_distribute.Proto.{
  Codec, GatewayRequest, EnterRoomReq, PlayerReadyReq, GameOverReq,
}
use ki_han_server_distribute.Sessions.{Session}
use ki_han_server_distribute.Room.{
  Player, has_player, get_player, get_player_uids, is_gaming, build_snapshot_json,
}
use ki_han_server_distribute.Manager.{
  Manager, get_room, get_room_by_uid, map_uid_to_room, destroy, destroy_room, remove_room,
  unmap_uid, unmap_uids,
}
use ki_han_server_distribute.Service.{
  session_of, open_stream, other_player, reply, entered, room_with, enter_found, enter_room,
  ready_found, player_ready, input_found, player_frame_input, finish_room, over_found, game_over,
  process_req, process_all, abandon, close_stream, stream_battle,
}
use ki_han_server_distribute.Control.{Game}
use ki_han_server_distribute.Threads.{Task, must, alone, alone_then, alone_fails, ◌>>=◌}
use ki_han_server_distribute.Locks.{
  edit, unmap_each, destroy_found, destroy_room_task, enter_seated, enter_with, enter_task,
  ready_seated, ready_with, ready_task, input_with, input_task, finish_task, over_with, over_task,
  request_task, requests_task, abandon_gaming, abandon_with, close_task, stream_task,
}

-- The process around a state of the rooms.
abbrev pub around : Game → Option Manager → Option (Unit {0} × Game)
around g none = none
around g (some m) = some (tt, record g { manager = m })

-- What a task alone does to the rooms.
abbrev Does : Task Game (Unit {0}) → Game → Option Manager → Type 0
Does t g r = alone t g ≡ around g r

unmap_each-alone :
    (uids : List ℕ) (g : Game) → Does (unmap_each uids) g (some (unmap_uids uids g.manager))
unfolding unmap_each unmap_uids alone ◌>>=◌
unmap_each-alone [] g = refl
unmap_each-alone (uid ∷ uids) g =
    unmap_each-alone uids (record g { manager = unmap_uid uid g.manager })

destroy_found-alone :
    (o : Option ℕ) (i : ℤ) (g : Game) → Does (destroy_found o i) g (some (destroy o i g.manager))
unfolding destroy_found destroy alone ◌>>=◌
destroy_found-alone none i g = refl
destroy_found-alone (some p) i g =
    let uids = get_player_uids (g.manager.objects p) in
    alone_then (unmap_each uids) (λ a. edit (remove_room i)) g _ tt (unmap_each-alone uids g)

destroy_room_task-alone :
    (i : ℤ) (g : Game) → Does (destroy_room_task i) g (some (destroy_room i g.manager))
unfolding destroy_room_task destroy_room alone ◌>>=◌
destroy_room_task-alone i g = destroy_found-alone (get_room g.manager i) i g

abbrev bind_option : {A B : Type 0} → Option A → (A → Option B) → Option B
bind_option none k = none
bind_option (some a) k = k a

must_found :
    {A : Type 0} (o : Option A) (a : A) (k : A → Task Game (Unit {0})) (g : Game)
    → o ≡ some a
    → alone (must o >>= k) g ≡ alone (k a) g
unfolding ◌>>=◌
must_found o a k g e = rw e refl

-- A value that is missing fails both.
must_alone :
    {A : Type 0} (o : Option A) (k : A → Task Game (Unit {0})) (k' : A → Option Manager) (g : Game)
    → ((a : A) → Does (k a) g (k' a))
    → Does (must o >>= k) g (bind_option o k')
unfolding alone ◌>>=◌
must_alone none k k' g h = refl
must_alone (some a) k k' g h = h a

module _ ⦃pb : Codec⦄ where
  enter_seated-alone :
      (s : Session) (uid : ℕ) (i : ℤ) (p : ℕ) (here : Bool) (g : Game)
      → Does
          (enter_seated s uid i p here)
          g
          (enter_found s uid i (if here then some p else none) g.manager)
  unfolding enter_seated enter_found alone ◌>>=◌
  enter_seated-alone s uid i p false g = refl
  enter_seated-alone s uid i p true g =
      must_alone (build_snapshot_json (g.manager.objects p)) _ _ g (λ json.
        must_alone (get_player (g.manager.objects p) uid) _
          (λ player. some (
            reply s 2001 (pb.serialize_enter_room_rsp (entered i json player))
              (map_uid_to_room uid i g.manager)))
          g (λ player. refl))

  enter_with-alone :
      (s : Session) (uid : ℕ) (i : ℤ) (o : Option ℕ) (g : Game)
      → Does (enter_with s uid i o) g (
          enter_found s uid i
            (elim o [
              | none ↦ none
              | some p ↦ if has_player (g.manager.objects p) uid then some p else none
            ])
            g.manager)
  unfolding enter_with enter_found alone ◌>>=◌
  enter_with-alone s uid i none g = refl
  enter_with-alone s uid i (some p) g = enter_seated-alone s uid i p _ g

  enter_task-alone :
      (s : Session) (uid : ℕ) (req : Option EnterRoomReq) (g : Game)
      → Does (enter_task s uid req) g (enter_room s uid req g.manager)
  unfolding enter_task enter_room room_with alone ◌>>=◌
  enter_task-alone s uid none g = refl
  enter_task-alone s uid (some req) g =
      enter_with-alone s uid req.room_id (get_room g.manager req.room_id) g

  ready_there-alone :
      (s : Session) (uid p : ℕ) (q : Player) (g : Game)
      → get_player (g.manager.objects p) uid ≡ some q
      → Does (ready_seated s uid p true) g (some (ready_found s uid (some p) g.manager))
  unfolding ready_seated ready_found alone ◌>>=◌
  ready_there-alone s uid p q g e = must_found (get_player (g.manager.objects p) uid) q _ g e

  -- A player that is there is found.
  ready_seated-alone :
      (s : Session) (uid p : ℕ) (g : Game)
      → Does (ready_seated s uid p (has_player (g.manager.objects p) uid)) g (
          some (
            ready_found s uid
              (if has_player (g.manager.objects p) uid then some p else none)
              g.manager))
  unfolding has_player get_player
  ready_seated-alone s uid p g = elim (Option-cases (find uid (g.manager.objects p).players)) [
    | inl e ↦ rw e (unfold ready_seated ready_found alone in refl)
    | inr (q, e) ↦ rw e (ready_there-alone s uid p q g e)
  ]

  ready_with-alone :
      (s : Session) (uid : ℕ) (o : Option ℕ) (g : Game)
      → Does (ready_with s uid o) g (
          some (
            ready_found s uid
              (elim o [
                | none ↦ none
                | some p ↦ if has_player (g.manager.objects p) uid then some p else none
              ])
              g.manager))
  unfolding ready_with ready_found alone ◌>>=◌
  ready_with-alone s uid none g = refl
  ready_with-alone s uid (some p) g = ready_seated-alone s uid p g

  ready_task-alone :
      (s : Session) (uid : ℕ) (req : Option PlayerReadyReq) (g : Game)
      → Does (ready_task s uid req) g (some (player_ready s uid req g.manager))
  unfolding ready_task player_ready room_with alone ◌>>=◌
  ready_task-alone s uid none g = refl
  ready_task-alone s uid (some req) g = ready_with-alone s uid (get_room g.manager req.room_id) g

  input_with-alone :
      (uid : ℕ) (payload : Bytes) (o : Option ℕ) (g : Game)
      → Does (input_with uid payload o) g (some (input_found uid payload o g.manager))
  unfolding input_with input_found alone
  input_with-alone uid payload none g = refl
  input_with-alone uid payload (some p) g = refl

  either-alone :
      (b : Bool) (t u : Task Game (Unit {0})) (x y : Option Manager) (g : Game)
      → Does t g x
      → Does u g y
      → Does (if b then t else u) g (if b then x else y)
  either-alone true t u x y g l r = l
  either-alone false t u x y g l r = r

  input_task-alone :
      (uid : ℕ) (payload : Bytes) (g : Game)
      → Does (input_task uid payload) g (some (player_frame_input uid payload g.manager))
  unfolding input_task player_frame_input alone ◌>>=◌
  input_task-alone uid payload g = elim (Bool-cases (length payload == 6)) [
    | inl six ↦ rw six (input_with-alone uid payload (get_room_by_uid g.manager uid) g)
    | inr other ↦ rw other refl
  ]

  finish_task-alone :
      (p winner : ℕ) (g : Game)
      → Does (finish_task p winner) g (some (finish_room p winner g.manager))
  unfolding finish_task finish_room alone ◌>>=◌
  finish_task-alone p winner g = destroy_room_task-alone _ _

  pub over_with-alone :
      (s : Session) (winner : ℕ) (o : Option ℕ) (g : Game)
      → Does (over_with s winner o) g (some (over_found s winner o g.manager))
  unfolding over_with over_found alone
  over_with-alone s winner none g = refl
  over_with-alone s winner (some p) g =
      alone_then (finish_task p winner) _ g _ tt (finish_task-alone p winner g)

  over_task-alone :
      (s : Session) (uid : ℕ) (req : Option GameOverReq) (g : Game)
      → Does (over_task s uid req) g (some (game_over s uid req g.manager))
  unfolding over_task game_over alone ◌>>=◌
  over_task-alone s uid none g = refl
  over_task-alone s uid (some req) g =
      over_with-alone s req.winner_uid (get_room_by_uid g.manager uid) g

  pub request_task-alone :
      (s : Session) (req : GatewayRequest) (g : Game)
      → Does (request_task s req) g (process_req s req g.manager)
  unfolding request_task process_req alone
  request_task-alone s req g =
      either-alone (req.cmd_id == 2001) _ _ _ _ g (enter_task-alone s req.uid _ g) (
        either-alone (req.cmd_id == 2002) _ _ _ _ g (ready_task-alone s req.uid _ g) (
          either-alone (req.cmd_id == 2004) _ _ _ _ g (input_task-alone req.uid req.payload g)
            (either-alone (req.cmd_id == 2006) _ _ _ _ g (over_task-alone s req.uid _ g) refl)))

  requests_task-alone :
      (s : Session) (reqs : List GatewayRequest) (g : Game)
      → Does (requests_task s reqs) g (process_all s reqs g.manager)
  unfolding requests_task process_all alone
  requests_task-alone s [] g = refl
  requests_task-alone s (req ∷ reqs) g = elim (Option-cases (process_req s req g.manager)) [
    | inl e ↦
        rw (e, process_all)
          (alone_fails (request_task s req) (λ a. requests_task s reqs) g
            (request_task-alone s req g ∙ rw e refl))
    | inr (m, e) ↦
        rw (e, process_all)
          (alone_then (request_task s req) (λ a. requests_task s reqs) g (record g { manager = m })
              tt (request_task-alone s req g ∙ rw e refl)
            ∙ requests_task-alone s reqs (record g { manager = m }))
  ]

  abandon_gaming-alone :
      (uid p : ℕ) (playing : Bool) (g : Game)
      → Does (abandon_gaming uid p playing) g (
          some (
            if playing
            then finish_room p (other_player uid (get_player_uids (g.manager.objects p))) g.manager
            else g.manager))
  unfolding abandon_gaming alone ◌>>=◌
  abandon_gaming-alone uid p false g = refl
  abandon_gaming-alone uid p true g = finish_task-alone p _ g

  abandon_with-alone :
      (uid : ℕ) (o : Option ℕ) (g : Game)
      → Does (abandon_with uid o) g (some (abandon uid o g.manager))
  unfolding abandon_with abandon alone ◌>>=◌
  abandon_with-alone uid none g = refl
  abandon_with-alone uid (some p) g =
      abandon_gaming-alone uid p (is_gaming (g.manager.objects p).state) g

  close_task-alone :
      (uid : ℕ) (g : Game) → Does (close_task uid) g (some (close_stream uid g.manager))
  unfolding close_task close_stream alone ◌>>=◌
  close_task-alone uid g =
      let o = get_room_by_uid g.manager uid in
      alone_then (abandon_with uid o) _ g _ tt (abandon_with-alone uid o g)

  -- A battle stream whose sections nothing comes between does what StreamBattle does in one step,
  -- and fails exactly where that fails.
  pub stream_task-alone :
      (stream : ℕ) (reqs : List GatewayRequest) (g : Game)
      → alone (stream_task stream reqs) g ≡ around g (stream_battle stream reqs g.manager)
  unfolding stream_task stream_battle alone ◌>>=◌
  stream_task-alone stream [] g = refl
  stream_task-alone stream (req ∷ reqs) g =
      let s = session_of stream req in
      let m = open_stream s req.uid g.manager in
      let opened : Game = record g { manager = m } in
      elim (Option-cases (process_all s (req ∷ reqs) m)) [
        | inl e ↦ rw e (
            alone_fails (requests_task s (req ∷ reqs)) (λ a. close_task req.uid) opened
              (requests_task-alone s (req ∷ reqs) opened ∙ rw e refl))
        | inr (m', e) ↦ rw e (
            alone_then (requests_task s (req ∷ reqs)) (λ a. close_task req.uid) opened
              (record g { manager = m' }) tt (requests_task-alone s (req ∷ reqs) opened ∙ rw e refl)
            ∙ close_task-alone req.uid (record g { manager = m' }))
      ]
