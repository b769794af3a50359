-- ===== src/LobbyState.antt =====
-- The members of LobbyServiceImpl in lobby_server/src/lobby_service.h, and what lobby_service.cpp
-- does with them: the online players, the match queue and the push stream. Error codes of
-- err_code.h.
use ki_han_server_distribute.Base.{
  ℕ, ◌-◌, ◌%◌, ◌^◌, ℤ, pos, negsuc, Bool, true, false, Option, none, some, List, [], ◌∷◌, ◌++◌, ltb,
  if◌then◌else◌, ◌==◌, nat_eq, int_eq, elem, erase_first,
}
use ki_han_server_distribute.Base.Bytes.{Bytes}
use ki_han_server_distribute.Proto.{GatewayRequest, GatewayResponse}

abbrev pub lobby_err_ok : ℤ
lobby_err_ok = pos 0

abbrev pub lobby_err_player_exists : ℤ
lobby_err_player_exists = negsuc 2200

abbrev pub lobby_err_player_not_exists : ℤ
lobby_err_player_not_exists = negsuc 2201

pub record MatchPlayer : Type 0 where
  pub uid : ℕ
  pub conn_id : ℕ
  pub character_id : ℤ
  pub nickname : Bytes

-- The members of LobbyServiceImpl. `push_writer` is the stream that the gateway subscribed with,
-- and `pushed` what was written on any such stream, oldest first.
pub record Service : Type 0 where
  pub online_players : List ℕ
  pub match_queue : List MatchPlayer
  pub push_writer : Option ℕ
  pub pushed : List (ℕ × GatewayResponse)

unfoldable pub init_service : Service
init_service = record { online_players = []; match_queue = []; push_writer = none; pushed = [] }

-- `online_players_.insert`
unfoldable pub insert_online : ℕ → Service → Service
insert_online uid l =
    if elem uid l.online_players
    then l
    else record l { online_players = l.online_players ++ uid ∷ [] }

unfoldable pub erase_online : ℕ → Service → Service
erase_online uid l = record l { online_players = erase_first uid l.online_players }

-- The loop that erases every entry of a uid.
unfoldable pub remove_queued : ℕ → List MatchPlayer → List MatchPlayer
remove_queued uid [] = []
remove_queued uid (p ∷ q) =
    let rest = remove_queued uid q in if p.uid == uid then rest else p ∷ rest

unfoldable pub in_queue : ℕ → List MatchPlayer → Bool
in_queue uid [] = false
in_queue uid (p ∷ q) = let rest = in_queue uid q in if p.uid == uid then true else rest

unfoldable pub enqueue : MatchPlayer → List MatchPlayer → List MatchPlayer
unfolding in_queue
enqueue p q = if in_queue p.uid q then q else q ++ p ∷ []

-- The first two of the queue, and the queue behind them.
unfoldable pub take_pair : List MatchPlayer → Option (MatchPlayer × MatchPlayer) × List MatchPlayer
take_pair [] = (none, [])
take_pair (p ∷ []) = (none, p ∷ [])
take_pair (p1 ∷ p2 ∷ q) = (some (p1, p2), q)

-- The size of the set, cast to an int32.
unfoldable pub to_int32 : ℕ → ℤ
to_int32 n = let w = n % 2 ^ 32 in if ltb w (2 ^ 31) then pos w else negsuc (2 ^ 32 - 1 - w)

unfoldable pub pushed_response : ℕ → ℕ → Bytes → GatewayResponse
pushed_response conn_id cmd_id payload = record {
  conn_id = conn_id;
  cmd_id = cmd_id;
  payload = payload;
  kick_client = false;
}

unfoldable pub push_on : Option ℕ → GatewayResponse → Service → Service
push_on none r l = l
push_on (some w) r l = record l { pushed = l.pushed ++ (w, r) ∷ [] }

unfoldable pub push_to_gateway : ℕ → ℕ → Bytes → Service → Service
unfolding push_on pushed_response
push_to_gateway conn_id cmd_id payload l =
    push_on l.push_writer (pushed_response conn_id cmd_id payload) l

-- `Subscribe`, before and after it waits.
unfoldable pub subscribe_begin : ℕ → Service → Service
subscribe_begin w l = record l { push_writer = some w }

unfoldable pub subscribe_end : Service → Service
subscribe_end l = record l { push_writer = none }

unfoldable pub client_disconnect : GatewayRequest → Service → Service
unfolding erase_online remove_queued
client_disconnect req l = record (erase_online req.uid l) {
  match_queue = remove_queued req.uid l.match_queue;
}
