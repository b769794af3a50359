-- ===== src/Lobby/Subscribing.antt =====
-- `Subscribe` in lobby_service.cpp, with the loop in which it waits.
use ki_han_server_distribute.Base.{
  ℕ, Bool, true, false, Option, none, some, List, [], ◌∷◌, ◌++◌, ◌≡◌, refl, ap, not, if◌then◌else◌,
  int_eq, nat_eq,
}
use mathlib.Core.Option
use ki_han_server_distribute.Lobby.Muted.{Call, answer_all, answer_all-Muted}
use ki_han_server_distribute.LobbyProto.{LobbyCodec}
use ki_han_server_distribute.Json.{Json}
use ki_han_server_distribute.Db.{Database, DbManager}
use ki_han_server_distribute.Lobby.{Service, GameStub, subscribe_begin, subscribe_end}

-- A second of the loop: `running_` before it, what the other threads do to the service in it, and
-- whether the gateway has left by its end.
pub record Second : Type 0 where
  pub running : Bool
  pub others : Service → Service
  pub cancelled : Bool

-- `none`: the loop still waits behind these seconds.
unfoldable pub wait_gateway : List Second → Service → Option Service
wait_gateway [] l = none
wait_gateway (t ∷ ts) l =
    let rest = wait_gateway ts (t.others l) in
    if not t.running then some l else if t.cancelled then some (t.others l) else rest

unfoldable pub subscribe : List Second → ℕ → Service → Option Service
unfolding wait_gateway subscribe_begin subscribe_end
subscribe ts writer l = Option.map subscribe_end (wait_gateway ts (subscribe_begin writer l))

-- Seconds in which the loop goes on, and what they leave.
unfoldable pub Waits : List Second → Type 0
Waits [] = Unit
Waits (t ∷ ts) = (t.running ≡ true) × (t.cancelled ≡ false) × Waits ts

pub seconds : List Second → Service → Service
seconds [] l = l
seconds (t ∷ ts) l = seconds ts (t.others l)

wait_gateway-Waits : (ts : List Second) (l : Service) → Waits ts → wait_gateway ts l ≡ none
unfolding wait_gateway Waits
wait_gateway-Waits [] l w = refl
wait_gateway-Waits (t ∷ ts) l (r, c, w) = rw (r, c) (wait_gateway-Waits ts (t.others l) w)

wait_gateway_cancelled :
    (before after : List Second) (last : Second) (l : Service)
    → Waits before
    → last.running ≡ true
    → last.cancelled ≡ true
    → wait_gateway (before ++ (last ∷ after)) l ≡ some (seconds (before ++ last ∷ []) l)
unfolding wait_gateway Waits seconds
wait_gateway_cancelled [] after last l w r c = rw (r, c) refl
wait_gateway_cancelled (t ∷ ts) after last l (r', c', w) r c =
    rw (r', c') (wait_gateway_cancelled ts after last (t.others l) w r c)

-- `Subscribe` returns in the second in which its gateway leaves, and while it waits before that it
-- does not. When it has returned, no requests and disconnects, one behind the other, push anything,
-- even if another gateway has subscribed while it waited.
pub subscribe_returns :
    ⦃pb : LobbyCodec⦄ ⦃js : Json⦄ ⦃db : Database⦄ ⦃stub : GameStub⦄ (before after : List Second)
    (last : Second) (writer : ℕ) (l : Service) (cs : List Call) (database : DbManager)
    (game : stub.Server)
    → Waits before
    → last.running ≡ true
    → last.cancelled ≡ true
    → let l' = subscribe_end (seconds (before ++ last ∷ []) (subscribe_begin writer l)) in
      (subscribe before writer l ≡ none)
      × (subscribe (before ++ (last ∷ after)) writer l ≡ some l')
      × ((answer_all cs (record { service = l'; database = database; game = game })).service.pushed
          ≡ l'.pushed)
unfolding subscribe subscribe_end
subscribe_returns before after last writer l cs database game w r c =
    let l0 = subscribe_begin writer l in
    (
      ap (Option.map subscribe_end) (wait_gateway-Waits before l0 w),
      ap (Option.map subscribe_end) (wait_gateway_cancelled before after last l0 w r c),
      (answer_all-Muted cs _ refl).pushed,
    )
