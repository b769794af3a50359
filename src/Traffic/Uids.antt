-- ===== src/Traffic/Uids.antt =====
-- ServeHTTP in gateway/network/ws_server.go of a token that Redis knows: the uid is read with
-- strconv.ParseUint, and a session is made for it.
use mathlib.Core.List.{append_assoc, append-nil}
use ki_han_server_distribute.Base.{
  ℕ, zero, suc, ◌+◌, ◌-◌, ◌*◌, ◌/◌, ◌%◌, ◌^◌, ◌<◌, true, Option, some, List, [], ◌∷◌, ◌++◌, ◌≡◌,
  refl, ap, sym, ◌∙◌, inl, inr, arith, Bool-cases, ltb, nat_eq,
}
use ki_han_server_distribute.Base.Bytes.{Bytes, codes, decimal, to_string}
use ki_han_server_distribute.Base.Map.{find, find-set_self}
use ki_han_server_distribute.Control.Number.{tenth, digit_first}
use ki_han_server_distribute.Gateway.{
  Gateway, auth_write, new_session, assign, emit, draw_id, draw_key, insert_session, insert_drawn,
  add_session,
}
use ki_han_server_distribute.Gateway.Invariant.{put_object_self}
use ki_han_server_distribute.Traffic.{
  Chances, joined, digits_value, below_32, parse_uint32, join_added, join_uid, join_text,
  serve_http,
}

one_digit :
    (acc d : ℕ) (rest : Bytes)
    → d < 10
    → digits_value acc ((b'0' + d) ∷ rest) ≡ digits_value (acc * 10 + d) rest
unfolding digits_value
one_digit acc d rest h = let digit : 48 + d - 48 ≡ d = omega arith in rw digit (ground arith)

leading : (n : ℕ) (rest : Bytes) → n < 10 → digits_value 0 ((b'0' + n) ∷ rest) ≡ digits_value n rest
leading n rest h =
    let start : 0 * 10 + n ≡ n = omega arith in
    one_digit 0 n rest h ∙ ap (λ m. digits_value m rest) start

digits_value-decimal :
    (f n : ℕ) (rest : Bytes)
    → n < 10 ^ suc f
    → digits_value 0 (decimal (suc f) n ++ rest) ≡ digits_value n rest
unfolding decimal
digits_value-decimal zero n rest h =
    let short : ltb n 10 ≡ true = ground arith in rw short (leading n rest h)
digits_value-decimal (suc f) n rest h = elim (Bool-cases (ltb n 10)) [
  | inl short ↦ rw short (leading n rest (ground arith))
  | inr long ↦
      let last = (b'0' + n % 10) ∷ rest in
      let whole : n / 10 * 10 + n % 10 ≡ n = omega arith in
      rw (long, append_assoc (decimal (suc f) (n / 10)) ((b'0' + n % 10) ∷ []) rest)
        (digits_value-decimal f (n / 10) last (tenth f n h)
          ∙ (one_digit (n / 10) (n % 10) rest (omega arith) ∙ ap (λ m. digits_value m rest) whole))
]

-- The gateway reads the uid that the login server printed.
pub parse_uint32-to_string :
    (n : ℕ)
    → n < 2 ^ 32
    → (c : ℕ) × (s : Bytes) × (to_string n ≡ c ∷ s) × (parse_uint32 (c ∷ s) ≡ some n)
unfolding to_string parse_uint32 below_32
parse_uint32-to_string n h =
    let (d, rest, small, e) = digit_first 9 n (omega arith) in
    let all : digits_value 0 (decimal 10 n) ≡ some n =
      ap (digits_value 0) (sym (append-nil (decimal 10 n)))
      ∙ digits_value-decimal 9 n [] (omega arith) in
    let read : digits_value 0 ((b'0' + d) ∷ rest) ≡ some n = ap (digits_value 0) (sym e) ∙ all in
    let fits : ltb n (2 ^ 32) ≡ true = ground arith in
    (b'0' + d, rest, e, ap below_32 read ∙ rw fits refl)

-- The gateway behind a join that came about.
unfoldable pub welcomed : ℕ → ℕ → Bytes → ℕ → Gateway → Gateway
welcomed id key token uid g =
    emit (auth_write g.allocated id key) (insert_session id key token uid g).0

pub serve_http_joined :
    (redis_get : Bytes → Option Bytes) (c : Chances) (token : Bytes) (uid id key : ℕ)
    (rest : List ℕ) (g : Gateway)
    → uid < 2 ^ 32
    → redis_get (codes "auth:" ++ token) ≡ some (to_string uid)
    → (token ≡ [] → ⊥)
    → draw_id c.draws g.sessions ≡ some (id, key ∷ rest)
    → c.upgrades ≡ true
    → c.writes ≡ true
    → serve_http redis_get c token g ≡ some (welcomed id key token uid g, joined g.allocated)
unfolding serve_http join_text join_uid join_added add_session draw_key insert_drawn welcomed
    insert_session assign new_session
serve_http_joined redis_get c [] uid id key rest g h known some_token drawn up wrote =
    absurd (some_token refl)
serve_http_joined redis_get c (b ∷ token) uid id key rest g h known some_token drawn up wrote =
    let (d, s, e, read) = parse_uint32-to_string uid h in
    let known' : redis_get (codes "auth:" ++ (b ∷ token)) ≡ some (d ∷ s) = known ∙ ap some e in
    let own = put_object_self g.allocated (new_session id key (b ∷ token) uid) g.objects in
    rw (known', read, drawn, up, wrote)
      (ap
        (λ x. some (
          emit (auth_write g.allocated x.id x.key) (insert_session id key (b ∷ token) uid g).0,
          joined g.allocated,
        ))
        own)

-- The session that it leaves.
pub welcomed-session :
    (id key : ℕ) (token : Bytes) (uid : ℕ) (g : Gateway)
    → (find id (welcomed id key token uid g).sessions ≡ some g.allocated)
      × ((welcomed id key token uid g).objects g.allocated ≡ new_session id key token uid)
unfolding welcomed emit insert_session assign
welcomed-session id key token uid g = (
  find-set_self id g.allocated g.sessions,
  put_object_self g.allocated (new_session id key token uid) g.objects,
)
