-- ===== src/Locks/Server.antt =====
-- All threads of the game server together: battle streams, calls of CreateRoom and the run loop,
-- interleaved section by section.
use ki_han_server_distribute.Base.{ℕ, Option, none, some, List, [], ◌∷◌, ◌≡◌, ◌≢◌, All}
use ki_han_server_distribute.Proto.{Codec, GatewayRequest, CreateRoomReq, CreateRoomRsp}
use ki_han_server_distribute.Json.{Json}
use ki_han_server_distribute.Manager.Invariant.{Inv}
use ki_han_server_distribute.Control.{Game}
use ki_han_server_distribute.Control.Rooms.{initial, initial-GameInv}
use ki_han_server_distribute.Threads.{Task, ret, fault, ◌>>=◌, ◌>>◌}
use ki_han_server_distribute.Threads.Rely.{Safe, Safe-sequence}
use ki_han_server_distribute.Threads.Pool.{Pool, PoolReach, AllSafe, PoolReach-Safe}
use ki_han_server_distribute.Locks.Grows.{game_rely}
use ki_han_server_distribute.Locks.Streams.{ret-IsSafe, stream_task-Safe}
use ki_han_server_distribute.Locks.Calls.{create_task-Safe, round_task-IsSafe}
use ki_han_server_distribute.Locks.Rooms.{create_task, round_task}
use ki_han_server_distribute.Locks.{stream_task}

-- What a thread returns: a call of CreateRoom its response, the others nothing.
abbrev pub Thread : Type 0
Thread = Task Game (Option CreateRoomRsp)

module _ ⦃pb : Codec⦄ where
  module _ ⦃js : Json⦄ where
    -- The threads that may start at any time, each any number of times. The run loop is the rounds
    -- that it makes; that one begins behind the end of another is not asked.
    pub data GameThread (t : Thread) : Type 0 where
      streams :
          (stream : ℕ) (reqs : List GatewayRequest)
          → t ≡ (stream_task stream reqs >> ret none)
          → GameThread t
      calls : (req : CreateRoomReq) → t ≡ (create_task req >>= λ rsp. ret (some rsp)) → GameThread t
      rounds : t ≡ (round_task >> ret none) → GameThread t

    GameThread-Safe : (t : Thread) (g : Game) → GameThread t → Inv g.manager → Safe game_rely t g
    unfolding game_rely
    GameThread-Safe t g (streams stream reqs e) v = rw e (
        Safe-sequence game_rely (stream_task stream reqs) _ g v (stream_task-Safe stream reqs g v)
          (λ a g' grown v'. ret-IsSafe none g'))
    GameThread-Safe t g (calls req e) v = rw e (
        Safe-sequence game_rely (create_task req) _ g v (create_task-Safe req g v)
          (λ rsp g' grown v'. ret-IsSafe (some rsp) g'))
    GameThread-Safe t g (rounds e) v = rw e (
        Safe-sequence game_rely round_task _ g v (round_task-IsSafe g)
          (λ a g' grown v'. ret-IsSafe none g'))

    AllSafe-no_fault :
        (ts : List Thread) (g : Game) → AllSafe game_rely ts g → All (λ t. t ≢ fault) ts
    unfolding Safe
    AllSafe-no_fault [] g h = tt
    AllSafe-no_fault (t ∷ ts) g h = ((λ failed. rw failed at h.0), AllSafe-no_fault ts g h.1)

    -- Whatever streams, calls of CreateRoom and rounds of the run loop are started from the
    -- server's start on, and however their critical sections interleave, the rooms are well formed
    -- and no thread has failed, by an exception that leaves it or by a null player.
    pub threads_never_fail :
        {p : Pool Game (Option CreateRoomRsp)}
        → PoolReach GameThread initial p
        → Inv p.state.manager × All (λ t. t ≢ fault) p.tasks
    unfolding game_rely
    threads_never_fail {p} r =
        let (v, safe) =
          PoolReach-Safe game_rely GameThread GameThread-Safe initial-GameInv.rooms r in
        (v, AllSafe-no_fault p.tasks p.state safe)
