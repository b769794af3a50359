-- ===== src/Traffic/Join.antt =====
-- ServeHTTP of gateway/network/ws_server.go: a client joins with its token.
use ki_han_server_distribute.Base.{
  ℕ, ◌+◌, ◌-◌, ◌*◌, ◌^◌, Bool, ◌&&◌, Option, none, some, List, [], ◌∷◌, ◌++◌, ltb, leb,
  if◌then◌else◌, nat_eq,
}
use ki_han_server_distribute.Base.Bytes.{Bytes, codes, bytes_eq}
use ki_han_server_distribute.Gateway.{Gateway, auth_write, emit, add_session, close}

-- `strconv.ParseUint(text, 10, 32)`
unfoldable pub digits_value : ℕ → Bytes → Option ℕ
digits_value n [] = some n
digits_value n (c ∷ s) =
    let rest = digits_value (n * 10 + (c - b'0')) s in
    if leb b'0' c && leb c b'9' then rest else none

unfoldable pub below_32 : Option ℕ → Option ℕ
below_32 none = none
below_32 (some n) = if ltb n (2 ^ 32) then some n else none

unfoldable pub parse_uint32 : Bytes → Option ℕ
unfolding digits_value below_32
parse_uint32 [] = none
parse_uint32 (c ∷ s) = below_32 (digits_value 0 (c ∷ s))

-- What ServeHTTP does with a request: an HTTP status, or a session.
pub data Joined : Type 0 where
  unauthorized internal_error not_upgraded : Joined
  joined : ℕ → Joined

-- The effects outside of the manager: whether the upgrade and the first message succeed, and the
-- random draws.
pub record Chances : Type 0 where
  pub upgrades : Bool
  pub writes : Bool
  pub draws : List ℕ

unfoldable pub join_added : Chances → Option (Gateway × ℕ) → Option (Gateway × Joined)
unfolding close emit
join_added c none = none
join_added c (some (g, p)) =
    let g' = emit (auth_write p (g.objects p).id (g.objects p).key) g in
    some ((if c.writes then g' else close p g'), joined p)

unfoldable pub join_uid : Chances → Bytes → Option ℕ → Gateway → Option (Gateway × Joined)
unfolding join_added
join_uid c token none g = some (g, internal_error)
join_uid c token (some uid) g =
    let added = join_added c (add_session c.draws token uid g) in
    if c.upgrades then added else some (g, not_upgraded)

unfoldable pub join_text : Chances → Bytes → Option Bytes → Gateway → Option (Gateway × Joined)
unfolding join_uid
join_text c token none g = some (g, unauthorized)
join_text c token (some []) g = some (g, unauthorized)
join_text c token (some (b ∷ text)) g = join_uid c token (parse_uint32 (b ∷ text)) g

-- `redis_get` answers with `none` where Redis gives an error. `none`: the draws ran out.
unfoldable pub serve_http :
    (Bytes → Option Bytes) → Chances → Bytes → Gateway → Option (Gateway × Joined)
unfolding join_text
serve_http redis_get c [] g = some (g, unauthorized)
serve_http redis_get c (b ∷ token) g =
    join_text c (b ∷ token) (redis_get (codes "auth:" ++ (b ∷ token))) g
