-- ===== src/World.antt =====
-- The game server's threads as one step relation: CreateRoom calls from the lobby, the battle
-- streams of game_server/src/game_service.cpp and the run loop of room_manager.cpp, in any order.
-- The run loop works through a list of pointers that it copied earlier, so its step may take any
-- pointer, also one of a room that was destroyed since.
use ki_han_server_distribute.Base.{ℕ, none, some, ◌≡◌, ◌≢◌, int_eq, nat_eq}
use ki_han_server_distribute.Proto.{Codec, GatewayRequest, CreateRoomReq}
use ki_han_server_distribute.Json.{Json}
use ki_han_server_distribute.Sessions.{Session}
use ki_han_server_distribute.Manager.{Manager, process_room}
use ki_han_server_distribute.Manager.Loop.{process_room-Inv}
use ki_han_server_distribute.Service.{process_req, open_stream, close_stream}
use ki_han_server_distribute.Service.Safety.{process_req_total, open_stream-Inv, close_stream-Inv}
use ki_han_server_distribute.Control.{Game, create_room}
use ki_han_server_distribute.Control.Rooms.{GameInv, initial, initial-GameInv, create_room-GameInv}

abbrev with_manager : Game → Manager → Game
with_manager g m = record g { manager = m }

module _ ⦃pb : Codec⦄ ⦃js : Json⦄ where
  pub data Step (g : Game) : Game → Type 0 where
    creates : (req : CreateRoomReq) → Step g (create_room g req).0
    opens : (s : Session) (uid : ℕ) → Step g (with_manager g (open_stream s uid g.manager))
    requests :
        (s : Session) (req : GatewayRequest) (m : Manager)
        → process_req s req g.manager ≡ some m
        → Step g (with_manager g m)
    closes : (uid : ℕ) → Step g (with_manager g (close_stream uid g.manager))
    loops : (p : ℕ) → Step g (with_manager g (process_room p g.manager))

  pub data Reach (g : Game) : Game → Type 0 where
    here : Reach g g
    next : {g' g'' : Game} → Reach g g' → Step g' g'' → Reach g g''

  pub Step-GameInv : {g g' : Game} → Step g g' → GameInv g → GameInv g'
  Step-GameInv {g} (creates req) v = create_room-GameInv g req v
  Step-GameInv {g} (opens s uid) v = record {
    rooms = open_stream-Inv s uid g.manager v.rooms;
    low = v.low;
    high = v.high;
  }
  Step-GameInv {g} (requests s req m e) v =
      let (m', e', inv) = process_req_total s req g.manager v.rooms in
      let same : m' ≡ m = cc in record { rooms = rw same at inv; low = v.low; high = v.high }
  Step-GameInv {g} (closes uid) v = record {
    rooms = close_stream-Inv uid g.manager v.rooms;
    low = v.low;
    high = v.high;
  }
  Step-GameInv {g} (loops p) v = record {
    rooms = process_room-Inv p g.manager v.rooms;
    low = v.low;
    high = v.high;
  }

  -- In every state that the server can reach from its start, by any calls, streams, requests and
  -- rounds of the loop in any order, `rooms_` leads to rooms of the same id, every room holds the
  -- same players in its vector and its map, each once and on seat 1 or 2, and the room ids stay
  -- between 1000 and 1000000001, so that they fit an int32.
  pub Reach-GameInv : {g : Game} → Reach initial g → GameInv g
  Reach-GameInv here = initial-GameInv
  Reach-GameInv (next r s) = Step-GameInv s (Reach-GameInv r)

  -- In every reachable state every request of every stream is handled: no exception leaves the
  -- handler and no null player is dereferenced.
  pub Reach-process_req :
      {g : Game}
      → Reach initial g
      → (s : Session) (req : GatewayRequest) → process_req s req g.manager ≢ none
  Reach-process_req {g} r s req failed =
      let (m, e, _) = process_req_total s req g.manager (Reach-GameInv r).rooms in cc
