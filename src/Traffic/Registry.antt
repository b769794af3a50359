-- ===== src/Traffic/Registry.antt =====
-- The sessions of the gateway as its clients see them: which id belongs to whom. Pointers,
-- addresses and transports are forgotten.
use ki_han_server_distribute.Base.{
  ℕ, Bool, true, false, Option, none, some, ◌≡◌, ◌≢◌, refl, sym, ◌∙◌, inl, inr, arith,
  if◌then◌else◌, ◌==◌, ◌&&◌, not, nat_eq, Bool-cases, Option-cases,
}
use ki_han_server_distribute.Base.Map.{find}
use ki_han_server_distribute.Base.Bytes.{Bytes, bytes_eq}
use ki_han_server_distribute.Gateway.{Session, Gateway}
use ki_han_server_distribute.Gateway.Invariant.{GatewayInv}

-- For each id the uid and the token of its session.
abbrev pub Registry : Type 0
Registry = ℕ → Option (ℕ × Bytes)

abbrev pub account : Option ℕ → (ℕ → Session) → Option (ℕ × Bytes)
account none objects = none
account (some p) objects = some ((objects p).uid, (objects p).token)

unfoldable pub view : Gateway → Registry
view g id = account (find id g.sessions) g.objects

nothing_found : {q : ℕ} → some q ≡ none → ⊥
nothing_found e = cc

-- The accounts that pass a test, given the id.
abbrev pub filtered : (ℕ → ℕ → Bytes → Bool) → ℕ → Option (ℕ × Bytes) → Option (ℕ × Bytes)
filtered keep id none = none
filtered keep id (some (uid, token)) = if keep id uid token then some (uid, token) else none

-- What kind of event a step is: a client joins, a kick arrives, or anything else.
pub data Event : Type 0 where
  join : Event
  kick : Option (ℕ × Bytes) → Event
  other : Event

-- Whether an event may change nothing.
abbrev pub calm : Event → Bool
calm join = true
calm (kick none) = true
calm (kick (some msg)) = false
calm other = true

-- One step of the specification.
pub data Change (a b : Registry) : Event → Type 0 where
  -- Nothing changes.
  rests : {e : Event} → calm e ≡ true → ((i : ℕ) → b i ≡ a i) → Change a b e
  -- A user enters under an id that is not 0 and not in use.
  enters :
      (id uid : ℕ) (token : Bytes)
      → id ≢ 0
      → a id ≡ none
      → ((i : ℕ) → b i ≡ (if id == i then some (uid, token) else a i))
      → Change a b join
  -- One id is given up.
  leaves :
      (id : ℕ)
      → ((i : ℕ) → b i ≡ filtered (λ j uid token. not (id == j)) i (a i))
      → Change a b other
  -- A uid keeps only the ids that have its new token.
  purges :
      (uid : ℕ) (token : Bytes)
      → ((i : ℕ) → b i ≡ filtered (λ j u t. not (u == uid && not (t == token))) i (a i))
      → Change a b (kick (some (uid, token)))

-- The sessions of a gateway stay what they are, but only those stay connected that pass a test.
pub record Thins (keep : ℕ → ℕ → Bytes → Bool) (g h : Gateway) : Type 0 where
  pub id : (q : ℕ) → (h.objects q).id ≡ (g.objects q).id
  pub uid : (q : ℕ) → (h.objects q).uid ≡ (g.objects q).uid
  pub token : (q : ℕ) → (h.objects q).token ≡ (g.objects q).token
  pub connected :
      (q : ℕ)
      → (h.objects q).connected
        ≡ ((g.objects q).connected && keep (g.objects q).id (g.objects q).uid (g.objects q).token)

module _ {keep : ℕ → ℕ → Bytes → Bool} {g h : Gateway} (v : GatewayInv g) (w : GatewayInv h)
    (t : Thins keep g h) where
  -- A session that is led to afterwards was led to before, and passes the test.
  led_before :
      (i q : ℕ)
      → find i h.sessions ≡ some q
      → (find i g.sessions ≡ some q) × (keep i (g.objects q).uid (g.objects q).token ≡ true)
  led_before i q led =
      let (below, named, on) = w.registered i q led in
      let was : ((g.objects q).connected
            && keep (g.objects q).id (g.objects q).uid (g.objects q).token)
          ≡ true =
        sym (t.connected q) ∙ on in
      let own : (g.objects q).id ≡ i = sym (t.id q) ∙ named in
      let on' : (g.objects q).connected ≡ true = ground arith in
      let kept : keep (g.objects q).id (g.objects q).uid (g.objects q).token ≡ true =
        ground arith in
      (rw own at (v.found q on'), rw own at kept)

  led_after :
      (i q : ℕ)
      → find i g.sessions ≡ some q
      → keep i (g.objects q).uid (g.objects q).token ≡ true
      → find i h.sessions ≡ some q
  led_after i q led kept =
      let (below, named, on) = v.registered i q led in
      let still : (h.objects q).connected ≡ true = t.connected q ∙ rw (on, named, kept) refl in
      let own : (h.objects q).id ≡ i = t.id q ∙ named in rw own at (w.found q still)

  pub view-Thins : (i : ℕ) → view h i ≡ filtered keep i (view g i)
  unfolding view
  view-Thins i = elim (Option-cases (find i h.sessions)) [
    | inl gone ↦ elim (Option-cases (find i g.sessions)) [
      | inl never ↦ rw (gone, never) refl
      | inr (q, led) ↦ elim (Bool-cases (keep i (g.objects q).uid (g.objects q).token)) [
        | inl kept ↦ absurd (nothing_found (sym (led_after i q led kept) ∙ gone))
        | inr dropped ↦ rw (gone, led, dropped) refl
      ]
    ]
    | inr (q, led) ↦
        let (before, kept) = led_before i q led in rw (led, before, t.uid q, t.token q, kept) refl
  ]
