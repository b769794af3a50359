-- ===== src/Locks/Races.antt =====
-- Two requests to end one game, at the same time.
use mathlib.Core.List.{append_assoc}
use ki_han_server_distribute.Base.{
  ℕ, ℤ, pos, some, List, [], ◌∷◌, ◌++◌, ◌≡◌, refl, ap, ◌∙◌, inl, inr, nat_eq, int_eq, Option-cases,
}
use ki_han_server_distribute.Proto.{Codec, GameOverReq}
use ki_han_server_distribute.Threads.Moves.{
  Moves, Moves-trans, Moves-later, Moves-section, Moves-alone,
}
use ki_han_server_distribute.Sessions.{Session, Write, response, send}
use ki_han_server_distribute.Sessions.Deliveries.{deliveries, send_to_players-deliveries}
use ki_han_server_distribute.Room.{stop_game}
use ki_han_server_distribute.Manager.Destroy.{unmap_uids-net}
use ki_han_server_distribute.Manager.Invariant.{unmap_uids-SameRooms, objects-assign_self}
use ki_han_server_distribute.Manager.{
  Manager, apply_method, destroy, destroy_room, get_room, get_room_by_uid, remove_room,
}
use ki_han_server_distribute.Service.{reply, finish_room, over_found}
use ki_han_server_distribute.Service.Finish.{game_over_payload}
use ki_han_server_distribute.Control.{Game}
use ki_han_server_distribute.Threads.{Task, ◌>>=◌}
use ki_han_server_distribute.Locks.Alone.{over_with-alone}
use ki_han_server_distribute.Locks.{over_task, over_with}

-- DestroyRoom sends nothing and changes no room object.
destroy_room_quiet :
    (i : ℤ) (m : Manager)
    → ((destroy_room i m).net ≡ m.net) × ((destroy_room i m).objects ≡ m.objects)
unfolding destroy_room destroy remove_room
destroy_room_quiet i m = elim (Option-cases (get_room m i)) [
  | inl e ↦ rw (e, destroy) (refl, refl)
  | inr (p, e) ↦
      rw (e, destroy)
        (
          unmap_uids-net (m.objects p).player_uids m,
          (unmap_uids-SameRooms (m.objects p).player_uids m).objects,
        )
]

module _ ⦃pb : Codec⦄ where
  -- What ending a game sends, whether the room is registered or not.
  abbrev pub endings : Manager → ℕ → ℕ → List Write
  endings m p winner =
      deliveries m.net.sessions (m.objects p).player_uids 2007
        (game_over_payload (m.objects p).id winner)

  -- The sessions, and the id and the players of the room, that a second end finds.
  pub record Again (p : ℕ) (m m' : Manager) : Type 0 where
    pub sessions : m'.net.sessions ≡ m.net.sessions
    pub id : (m'.objects p).id ≡ (m.objects p).id
    pub uids : (m'.objects p).player_uids ≡ (m.objects p).player_uids

  stopped : ℕ → ℕ → Manager → Manager
  stopped p winner m = apply_method p (λ r n. stop_game r winner n) m

  stopped_object :
      (p winner : ℕ) (m : Manager)
      → (stopped p winner m).objects p ≡ (stop_game (m.objects p) winner m.net).0
  unfolding stopped apply_method
  stopped_object p winner m = objects-assign_self p (stop_game (m.objects p) winner m.net).0 m

  stopped_net :
      (p winner : ℕ) (m : Manager)
      → (stopped p winner m).net ≡ record m.net { sent = m.net.sent ++ endings m p winner }
  unfolding stopped apply_method stop_game
  stopped_net p winner m = send_to_players-deliveries (m.objects p).player_uids 2007 _ m.net

  finish_room-Again :
      (p winner : ℕ) (m : Manager)
      → ((finish_room p winner m).net.sent ≡ m.net.sent ++ endings m p winner)
        × Again p m (finish_room p winner m)
  unfolding finish_room stopped
  finish_room-Again p winner m =
      let (net, objects) = destroy_room_quiet (m.objects p).id (stopped p winner m) in
      let object = stopped_object p winner m in
      (
        rw (net, stopped_net p winner m) refl,
        record {
          sessions = rw (net, stopped_net p winner m) refl;
          id = rw (objects, object) (unfold stop_game in refl);
          uids = rw (objects, object) (unfold stop_game in refl);
        },
      )

  over_found-Again :
      (s : Session) (p winner : ℕ) (m : Manager)
      → let m' = over_found s winner (some p) m in
        (m'.net.sent
          ≡ m.net.sent
            ++ (endings m p winner
                ++ response s 2006 (pb.serialize_game_over_rsp (record { err_code = pos 0 })) ∷ []))
        × Again p m m'
  unfolding over_found reply send
  over_found-Again s p winner m =
      let (sent, again) = finish_room-Again p winner m in
      (
        rw (sent, append_assoc) refl,
        record { sessions = again.sessions; id = again.id; uids = again.uids },
      )

  -- Two threads may handle requests to end the game of one room, whatever each does behind its
  -- request and whatever other threads there are, so that both find the room and then the game ends
  -- twice: each player with a session is sent the end twice, with the winner of the one request and
  -- then with the winner of the other, and both requests are answered with 0.
  pub over_task_twice :
      {A : Type 0} (k k' : Unit {0} → Task Game A) (others : List (Task Game A)) (s s' : Session)
      (uid uid' p : ℕ) (req req' : GameOverReq) (g : Game)
      → get_room_by_uid g.manager uid ≡ some p
      → get_room_by_uid g.manager uid' ≡ some p
      → let ok = pb.serialize_game_over_rsp (record { err_code = pos 0 }) in
        (g' : Game) × Moves g
          ((over_task s uid (some req) >>= k) ∷ (over_task s' uid' (some req') >>= k') ∷ others)
          g'
          (k tt ∷ k' tt ∷ others)
        × (g'.manager.net.sent
            ≡ (g.manager.net.sent
                ++ (endings g.manager p req.winner_uid ++ response s 2006 ok ∷ []))
              ++ (endings g.manager p req'.winner_uid ++ response s' 2006 ok ∷ []))
  unfolding over_task ◌>>=◌
  over_task_twice k k' others s s' uid uid' p req req' g e e' =
      let winner = req.winner_uid in
      let winner' = req'.winner_uid in
      let m = over_found s winner (some p) g.manager in
      let g1 : Game = record g { manager = m } in
      let g2 : Game = record g { manager = over_found s' winner' (some p) m } in
      let (sent, again) = over_found-Again s p winner g.manager in
      let (sent', _) = over_found-Again s' p winner' m in
      let second = over_task s' uid' (some req') >>= k' in
      let found =
        Moves-section (over_task s uid (some req) >>= k) (over_with s winner (some p) >>= k) g
          (second ∷ others) refl (ap (λ o. over_with s winner o >>= k) e) in
      let found' =
        Moves-section second (over_with s' winner' (some p) >>= k') g others refl
          (ap (λ o. over_with s' winner' o >>= k') e') in
      let ended =
        Moves-alone (over_with s winner (some p)) k
          ((over_with s' winner' (some p) >>= k') ∷ others) g g1 tt
          (over_with-alone s winner (some p) g) in
      let ended' =
        Moves-alone (over_with s' winner' (some p)) k' others g1 g2 tt
          (over_with-alone s' winner' (some p) g1) in
      (
        g2,
        Moves-trans found
            (Moves-trans (Moves-later _ found') (Moves-trans ended (Moves-later (k tt) ended'))),
        sent' ∙ rw (sent, again.sessions, again.id, again.uids) refl,
      )
