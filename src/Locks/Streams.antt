-- ===== src/Locks/Streams.antt =====
-- The battle streams section by section: whatever the other threads do between two sections, a room
-- that was found still has the players that it had.
use ki_han_server_distribute.Base.{
  ℕ, ◌<◌, ℤ, Bool, true, false, Option, none, some, List, [], ◌∷◌, ◌≡◌, refl, inl, inr, arith,
  if◌then◌else◌, ◌==◌, nat_eq, length, int_eq, Option-cases,
}
use ki_han_server_distribute.Base.Map.{find}
use ki_han_server_distribute.Base.Bytes.{Bytes}
use ki_han_server_distribute.Proto.{
  Codec, GatewayRequest, EnterRoomReq, PlayerReadyReq, GameOverReq,
}
use ki_han_server_distribute.Sessions.{Session}
use ki_han_server_distribute.Room.Methods.{
  mark_ready-IsValid, push_input-SamePlayers, SamePlayers-IsValid, stop_game-IsValid,
}
use ki_han_server_distribute.Room.Snapshot.{build_snapshot_json_total}
use ki_han_server_distribute.Room.{Player, has_player, get_player, mark_ready, push_input}
use ki_han_server_distribute.Manager.Invariant.{Inv}
use ki_han_server_distribute.Manager.{Manager, get_room}
use ki_han_server_distribute.Control.{Game}
use ki_han_server_distribute.Threads.{Task, ret, ◌>>◌}
use ki_han_server_distribute.Threads.Rely.{Safe, Safe-sequence}
use ki_han_server_distribute.Locks.Grows.{Grows, Grows-trans, game_rely}
use ki_han_server_distribute.Locks.Stays.{mark_ready-Stays, SamePlayers-Stays, stop_game-Stays}
use ki_han_server_distribute.Locks.Keeps.{
  IsSafe, edit-IsSafe, edit_then, read_then, must_then, reply-Keeps, map_uid_to_room-Keeps,
  unmap_uid-Keeps, open_stream-Keeps, unregister-Keeps, remove_room-Keeps, assign-Keeps,
  apply_method-Keeps,
}
use ki_han_server_distribute.Locks.{
  edit, unmap_each, destroy_found, destroy_room_task, enter_seated, enter_with, enter_task,
  ready_seated, ready_with, ready_task, input_with, input_task, finish_task, over_with, over_task,
  request_task, requests_task, abandon_gaming, abandon_with, close_task, stream_task,
}

pub ret-IsSafe : {A : Type 0} (a : A) → IsSafe {A = A} (ret a)
unfolding Safe
ret-IsSafe a s = tt

pub either-Safe :
    {A : Type 0} (b : Bool) (t u : Task Game A) (g : Game)
    → Safe game_rely t g
    → Safe game_rely u g
    → Safe game_rely (if b then t else u) g
either-Safe true t u g x y = x
either-Safe false t u g x y = y

-- A sequence of tasks that are safe from any state on, behind a state that is good.
pub sequence-Safe :
    {A B : Type 0} (t : Task Game A) (u : Task Game B) (s : Game)
    → Inv s.manager
    → Safe game_rely t s
    → IsSafe u
    → Safe game_rely (t >> u) s
sequence-Safe t u s v first second =
    Safe-sequence game_rely t (λ a. u) s (unfold game_rely in v) first (λ a s' grown v'. second s')

unmap_each-IsSafe : (uids : List ℕ) → IsSafe (unmap_each uids)
unfolding unmap_each
unmap_each-IsSafe [] = ret-IsSafe tt
unmap_each-IsSafe (uid ∷ uids) = edit_then _ _ (unmap_uid-Keeps uid) (unmap_each-IsSafe uids)

destroy_found-IsSafe : (o : Option ℕ) (room_id : ℤ) → IsSafe (destroy_found o room_id)
unfolding destroy_found
destroy_found-IsSafe none room_id s = ret-IsSafe tt s
destroy_found-IsSafe (some p) room_id s = read_then _ _ s (λ s' g v.
    sequence-Safe (unmap_each _) _ s' v (unmap_each-IsSafe _ s')
      (edit-IsSafe _ (remove_room-Keeps room_id)))

destroy_room_task-IsSafe : (room_id : ℤ) → IsSafe (destroy_room_task room_id)
unfolding destroy_room_task
destroy_room_task-IsSafe room_id s = read_then _ _ s (λ s' g v. destroy_found-IsSafe _ room_id s')

-- A player that was seen behind a good pointer is there whenever it is looked up later.
found_later :
    {m m' : Manager} (p uid : ℕ)
    → Grows m m'
    → p < m.allocated
    → has_player (m.objects p) uid ≡ true
    → (q : Player) × (get_player (m'.objects p) uid ≡ some q)
unfolding has_player get_player
found_later {m} {m'} p uid g below here = elim (Option-cases (find uid (m.objects p).players)) [
  | inl gone ↦ absurd (ground arith)
  | inr (q, e) ↦ let (q', e', _) = (g.stays p below).seats uid q e in (q', e')
]

registered : {m : Manager} (i : ℤ) → Inv m → (p : ℕ) → get_room m i ≡ some p → p < m.allocated
unfolding get_room
registered i v p e = (v.registered i p e).0

module _ ⦃pb : Codec⦄ where
  enter_seated-Safe :
      (s : Session) (uid : ℕ) (room_id : ℤ) (p : ℕ) (here : Bool) (g : Game)
      → p < g.manager.allocated
      → (here ≡ true → has_player (g.manager.objects p) uid ≡ true)
      → Safe game_rely (enter_seated s uid room_id p here) g
  unfolding enter_seated
  enter_seated-Safe s uid room_id p false g below seen = edit-IsSafe _ (reply-Keeps s 2001 _) g
  enter_seated-Safe s uid room_id p true g below seen = read_then _ _ g (λ g' grown v.
      must_then _ _ _ g' (build_snapshot_json_total (g'.manager.objects p) (v.valid p)) (
        read_then _ _ g' (λ g'' grown' v'.
          let (q, e) = found_later p uid (Grows-trans grown grown') below (seen refl) in
          must_then _ q _ g'' e (
            edit_then _ _ (map_uid_to_room-Keeps uid room_id) (edit-IsSafe _ (reply-Keeps s 2001 _))
              g''))))

  enter_with-Safe :
      (s : Session) (uid : ℕ) (room_id : ℤ) (o : Option ℕ) (g : Game)
      → ((p : ℕ) → o ≡ some p → p < g.manager.allocated)
      → Safe game_rely (enter_with s uid room_id o) g
  unfolding enter_with
  enter_with-Safe s uid room_id none g below = edit-IsSafe _ (reply-Keeps s 2001 _) g
  enter_with-Safe s uid room_id (some p) g below = read_then _ _ g (λ g' grown v.
      enter_seated-Safe s uid room_id p _ g' (omega (arith, below p refl, grown.pointers)) (λ e. e))

  enter_task-IsSafe :
      (s : Session) (uid : ℕ) (req : Option EnterRoomReq) → IsSafe (enter_task s uid req)
  unfolding enter_task
  enter_task-IsSafe s uid none g = ret-IsSafe tt g
  enter_task-IsSafe s uid (some req) g =
      read_then _ _ g
        (λ g' grown v. enter_with-Safe s uid req.room_id _ g' (registered req.room_id v))

  ready_seated-Safe :
      (s : Session) (uid p : ℕ) (here : Bool) (g : Game)
      → p < g.manager.allocated
      → (here ≡ true → has_player (g.manager.objects p) uid ≡ true)
      → Safe game_rely (ready_seated s uid p here) g
  unfolding ready_seated
  ready_seated-Safe s uid p false g below seen = edit-IsSafe _ (reply-Keeps s 2002 _) g
  ready_seated-Safe s uid p true g below seen = read_then _ _ g (λ g' grown v.
      let (q, e) = found_later p uid grown below (seen refl) in
      must_then _ q _ g' e (
        edit_then _ _
          (assign-Keeps p (λ r. mark_ready r uid)
            (λ r ok. (mark_ready-IsValid r uid ok, mark_ready-Stays r uid)))
          (edit-IsSafe _ (reply-Keeps s 2002 _)) g'))

  ready_with-Safe :
      (s : Session) (uid : ℕ) (o : Option ℕ) (g : Game)
      → ((p : ℕ) → o ≡ some p → p < g.manager.allocated)
      → Safe game_rely (ready_with s uid o) g
  unfolding ready_with
  ready_with-Safe s uid none g below = edit-IsSafe _ (reply-Keeps s 2002 _) g
  ready_with-Safe s uid (some p) g below = read_then _ _ g (λ g' grown v.
      ready_seated-Safe s uid p _ g' (omega (arith, below p refl, grown.pointers)) (λ e. e))

  ready_task-IsSafe :
      (s : Session) (uid : ℕ) (req : Option PlayerReadyReq) → IsSafe (ready_task s uid req)
  unfolding ready_task
  ready_task-IsSafe s uid none g = ret-IsSafe tt g
  ready_task-IsSafe s uid (some req) g =
      read_then _ _ g (λ g' grown v. ready_with-Safe s uid _ g' (registered req.room_id v))

  input_with-IsSafe : (uid : ℕ) (payload : Bytes) (o : Option ℕ) → IsSafe (input_with uid payload o)
  unfolding input_with
  input_with-IsSafe uid payload none = ret-IsSafe tt
  input_with-IsSafe uid payload (some p) = edit-IsSafe _ (
      assign-Keeps p (λ r. push_input r uid payload)
        (λ r ok.
          let same = push_input-SamePlayers r uid payload in
          (SamePlayers-IsValid same ok, SamePlayers-Stays same)))

  input_task-IsSafe : (uid : ℕ) (payload : Bytes) → IsSafe (input_task uid payload)
  unfolding input_task
  input_task-IsSafe uid payload g =
      either-Safe (length payload == 6) _ _ g
        (read_then _ _ g (λ g' grown v. input_with-IsSafe uid payload _ g')) (ret-IsSafe tt g)

  finish_task-IsSafe : (p winner : ℕ) → IsSafe (finish_task p winner)
  unfolding finish_task
  finish_task-IsSafe p winner g = read_then _ _ g (λ g' grown v.
      edit_then _ _
        (apply_method-Keeps p _ (λ r n ok. stop_game-IsValid r winner n ok)
          (λ r n. stop_game-Stays r winner n))
        (destroy_room_task-IsSafe _) g')

  over_with-Safe :
      (s : Session) (winner : ℕ) (o : Option ℕ) (g : Game)
      → Inv g.manager
      → Safe game_rely (over_with s winner o) g
  unfolding over_with
  over_with-Safe s winner none g v = edit-IsSafe _ (reply-Keeps s 2006 _) g
  over_with-Safe s winner (some p) g v =
      sequence-Safe (finish_task p winner) _ g v (finish_task-IsSafe p winner g)
        (edit-IsSafe _ (reply-Keeps s 2006 _))

  over_task-IsSafe :
      (s : Session) (uid : ℕ) (req : Option GameOverReq) → IsSafe (over_task s uid req)
  unfolding over_task
  over_task-IsSafe s uid none g = ret-IsSafe tt g
  over_task-IsSafe s uid (some req) g =
      read_then _ _ g (λ g' grown v. over_with-Safe s req.winner_uid _ g' v)

  -- Every request, at any time.
  pub request_task-IsSafe : (s : Session) (req : GatewayRequest) → IsSafe (request_task s req)
  unfolding request_task
  request_task-IsSafe s req g =
      either-Safe (req.cmd_id == 2001) _ _ g (enter_task-IsSafe s req.uid _ g) (
        either-Safe (req.cmd_id == 2002) _ _ g (ready_task-IsSafe s req.uid _ g) (
          either-Safe (req.cmd_id == 2004) _ _ g (input_task-IsSafe req.uid req.payload g) (
            either-Safe (req.cmd_id == 2006) _ _ g (over_task-IsSafe s req.uid _ g)
              (ret-IsSafe tt g))))

  requests_task-Safe :
      (s : Session) (reqs : List GatewayRequest) (g : Game)
      → Inv g.manager
      → Safe game_rely (requests_task s reqs) g
  unfolding requests_task game_rely
  requests_task-Safe s [] g v = ret-IsSafe tt g
  requests_task-Safe s (req ∷ reqs) g v =
      Safe-sequence game_rely (request_task s req) _ g v (request_task-IsSafe s req g)
        (λ a g' grown v'. requests_task-Safe s reqs g' v')

  abandon_gaming-IsSafe : (uid p : ℕ) (playing : Bool) → IsSafe (abandon_gaming uid p playing)
  unfolding abandon_gaming
  abandon_gaming-IsSafe uid p false g = ret-IsSafe tt g
  abandon_gaming-IsSafe uid p true g = read_then _ _ g (λ g' grown v. finish_task-IsSafe p _ g')

  abandon_with-IsSafe : (uid : ℕ) (o : Option ℕ) → IsSafe (abandon_with uid o)
  unfolding abandon_with
  abandon_with-IsSafe uid none g = ret-IsSafe tt g
  abandon_with-IsSafe uid (some p) g =
      read_then _ _ g (λ g' grown v. abandon_gaming-IsSafe uid p _ g')

  pub close_task-IsSafe : (uid : ℕ) → IsSafe (close_task uid)
  unfolding close_task
  close_task-IsSafe uid g = read_then _ _ g (λ g' grown v.
      sequence-Safe (abandon_with uid _) _ g' v (abandon_with-IsSafe uid _ g')
        (edit_then _ _ (unmap_uid-Keeps uid) (edit-IsSafe _ (unregister-Keeps uid))))

  -- A whole battle stream, whatever it reads.
  pub stream_task-Safe :
      (stream : ℕ) (reqs : List GatewayRequest) (g : Game)
      → Inv g.manager
      → Safe game_rely (stream_task stream reqs) g
  unfolding stream_task game_rely
  stream_task-Safe stream [] g v = ret-IsSafe tt g
  stream_task-Safe stream (req ∷ reqs) g v =
      Safe-sequence game_rely (edit _) _ g v (edit-IsSafe _ (open_stream-Keeps _ req.uid) g)
        (λ a g' grown v'.
          sequence-Safe (requests_task _ (req ∷ reqs)) _ g' v'
            (requests_task-Safe _ (req ∷ reqs) g' v') (close_task-IsSafe req.uid))
