-- ===== src/Traffic/Joining.antt =====
-- What AddSession of gateway/network/manager.go and ServeHTTP of ws_server.go keep true of the
-- sessions.
use ki_han_server_distribute.Base.{
  ℕ, Option, none, some, List, [], ◌∷◌, ◌++◌, ◌≡◌, refl, arith, nat_eq,
}
use ki_han_server_distribute.Base.Bytes.{Bytes, codes, bytes_eq}
use ki_han_server_distribute.Gateway.{
  Gateway, assign, emit, draw_id, draw_key, insert_session, insert_drawn, add_session, auth_write,
}
use ki_han_server_distribute.Gateway.Invariant.{GatewayInv, Holds-insert}
use ki_han_server_distribute.Gateway.Closing.{close-GatewayInv}
use ki_han_server_distribute.Traffic.{
  Chances, join_added, join_uid, join_text, serve_http, parse_uint32,
}
use ki_han_server_distribute.Gateway.Drawing.{draw_id-fresh}
use ki_han_server_distribute.Traffic.Invariant.{emit-GatewayInv}

-- A joining session, where the draws were enough.
abbrev pub SafeWith : {A : Type 0} → Option (Gateway × A) → Type 0
SafeWith none = Unit
SafeWith (some (g, a)) = GatewayInv g

add_session-Safe :
    (draws : List ℕ) (token : Bytes) (uid : ℕ) (g : Gateway)
    → GatewayInv g
    → SafeWith (add_session draws token uid g)
unfolding add_session insert_drawn draw_key insert_session assign
add_session-Safe draws token uid g v = drawn_lem (draw_id draws g.sessions) refl
  where
    drawn_lem :
        (d : Option (ℕ × List ℕ))
        → draw_id draws g.sessions ≡ d
        → SafeWith (insert_drawn (draw_key d) token uid g)
    drawn_lem none e = tt
    drawn_lem (some (id, [])) e = tt
    drawn_lem (some (id, key ∷ rest)) e =
        Holds-insert v id key uid token (draw_id-fresh draws g.sessions id (key ∷ rest) e).1

join_added-Safe :
    (c : Chances) (added : Option (Gateway × ℕ)) → SafeWith added → SafeWith (join_added c added)
unfolding join_added
join_added-Safe c none v = tt
join_added-Safe c (some (g, p)) v =
    let v' = emit-GatewayInv (auth_write p (g.objects p).id (g.objects p).key) g v in
    ground (arith, close-GatewayInv p (emit (auth_write p (g.objects p).id (g.objects p).key) g) v')

join_text-Safe :
    (c : Chances) (token : Bytes) (text : Option Bytes) (g : Gateway)
    → GatewayInv g
    → SafeWith (join_text c token text g)
unfolding join_text join_uid
join_text-Safe c token none g v = v
join_text-Safe c token (some []) g v = v
join_text-Safe c token (some (b ∷ text)) g v = uid_lem (parse_uint32 (b ∷ text))
  where
    uid_lem : (uid : Option ℕ) → SafeWith (join_uid c token uid g)
    uid_lem none = v
    uid_lem (some uid) = ground (
      arith,
      join_added-Safe c (add_session c.draws token uid g) (add_session-Safe c.draws token uid g v),
    )

pub serve_http-Safe :
    (redis_get : Bytes → Option Bytes) (c : Chances) (token : Bytes) (g : Gateway)
    → GatewayInv g
    → SafeWith (serve_http redis_get c token g)
unfolding serve_http
serve_http-Safe redis_get c [] g v = v
serve_http-Safe redis_get c (b ∷ token) g v =
    join_text-Safe c (b ∷ token) (redis_get (codes "auth:" ++ (b ∷ token))) g v
