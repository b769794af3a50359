-- ===== src/Traffic/Refinement.antt =====
-- The gateway against its specification in Traffic.Registry: each round of a loop is one step of it.
use ki_han_server_distribute.Base.{
  ℕ, true, false, Option, none, some, List, [], ◌∷◌, ◌++◌, ◌≡◌, ◌≢◌, refl, sym, ap, ◌∙◌, subst, inl,
  inr, arith, if◌then◌else◌, ◌==◌, nat_eq, nat_beq_iff, Bool-cases,
}
use ki_han_server_distribute.Base.Map.{find, find-set}
use ki_han_server_distribute.Base.Bytes.{Bytes, codes, bytes_eq}
use ki_han_server_distribute.Gateway.{
  Gateway, Effect, new_session, assign, emit, auth_write, draw_id, draw_key, insert_session,
  insert_drawn, add_session, close,
}
use ki_han_server_distribute.Gateway.Invariant.{
  GatewayInv, Holds-insert, put_object, put_object_self,
}
use ki_han_server_distribute.Gateway.Drawing.{draw_id-fresh}
use ki_han_server_distribute.Gateway.Closing.{close-GatewayInv}
use ki_han_server_distribute.Traffic.{
  Backend, Chances, Joined, on_kick, parse_uint32, join_added, join_uid, join_text, serve_http,
  read_from, game_stream_recv,
}
use ki_han_server_distribute.Traffic.Invariant.{emit-GatewayInv}
use ki_han_server_distribute.Traffic.Reach.{
  Reach, next, Step, joins, reads_ws, reads_kcp, reads_game, reads_datagram, takes_packet,
  writes_packet, accepts, kicks, pushes, closes, notifies, lobby_moves, Reach-GatewayInv,
}
use ki_han_server_distribute.Traffic.Kicking.{dropped, on_kick-objects}
use ki_han_server_distribute.Traffic.Registry.{
  account, view, filtered, Change, Event, join, kick, other, rests, enters, leaves, purges,
  view-Thins,
}
use ki_han_server_distribute.Traffic.Quiet.{
  Still, Still-same, read_datagram-Still, write_to-objects, accept_kcp-Still,
}
use ki_han_server_distribute.Traffic.Leaving.{
  but, Outcome, close-Outcome, close-Thins, deliver-Outcome, on_push-Outcome, ws_message-Outcome,
  kcp_message-Outcome,
}

filtered_all : (i : ℕ) (a : Option (ℕ × Bytes)) → filtered (λ j u t. true) i a ≡ a
filtered_all i none = refl
filtered_all i (some (uid, token)) = refl

Still-Change :
    (g h : Gateway)
    → GatewayInv g
    → GatewayInv h
    → Still g.objects h.objects
    → Change (view g) (view h) other
Still-Change g h v w s = rests refl λ i.
    view-Thins {keep = λ j u t. true} v w
      (record {
        id = s.id;
        uid = s.uid;
        token = s.token;
        connected = λ q. s.connected q ∙ ground arith;
      })
      i
    ∙ filtered_all i (view g i)

Outcome-Change :
    (g h : Gateway)
    → GatewayInv g
    → GatewayInv h
    → Outcome g (some h)
    → Change (view g) (view h) other
unfolding Outcome
Outcome-Change g h v w (inl s) = Still-Change g h v w s
Outcome-Change g h v w (inr (id, t)) = leaves id (view-Thins v w t)

on_kick-Change :
    (msg : Option (ℕ × Bytes)) (g : Gateway)
    → GatewayInv g
    → GatewayInv (on_kick msg g)
    → Change (view g) (view (on_kick msg g)) (kick msg)
unfolding on_kick
on_kick-Change none g v w = rests refl λ i. refl
on_kick-Change (some (uid, token)) g v w = purges uid token (
    view-Thins v w (record {
      id = λ q. ap (λ s. s.id) (after q);
      uid = λ q. ap (λ s. s.uid) (after q);
      token = λ q. ap (λ s. s.token) (after q);
      connected = λ q. ap (λ s. s.connected) (after q);
    }))
  where
    after :
        (q : ℕ)
        → (on_kick (some (uid, token)) g).objects q
          ≡ dropped ((g.objects q).uid == uid) token (g.objects q)
    after q = on_kick-objects uid token g q v

-- A session has been made for a user.
record Entry (g k : Gateway) (p : ℕ) : Type 0 where
  id : ℕ
  uid : ℕ
  token : Bytes
  nonzero : id ≢ 0
  fresh : view g id ≡ none
  seen : (i : ℕ) → view k i ≡ (if id == i then some (uid, token) else view g i)
  own : (k.objects p).id ≡ id
  on : (k.objects p).connected ≡ true

insert_session-Entry :
    (id key : ℕ) (token : Bytes) (uid : ℕ) (g : Gateway)
    → GatewayInv g
    → id ≢ 0
    → find id g.sessions ≡ none
    → Entry g (insert_session id key token uid g).0 g.allocated
unfolding insert_session assign view new_session
insert_session-Entry id key token uid g v nonzero fresh =
    let self = put_object_self g.allocated (new_session id key token uid) g.objects in
    record {
      id = id;
      uid = uid;
      token = token;
      nonzero = nonzero;
      fresh = ap (λ o. account o g.objects) fresh;
      seen = λ i. elim (Bool-cases (id == i)) [
        | inl hit ↦
            rw (find-set id i g.allocated g.sessions, hit) (ap (λ s. some (s.uid, s.token)) self)
        | inr miss ↦
            rw (find-set id i g.allocated g.sessions, miss) (others i (find i g.sessions) refl)
      ];
      own = ap (λ s. s.id) self;
      on = ap (λ s. s.connected) self;
    }
  where
    others :
        (i : ℕ) (o : Option ℕ)
        → find i g.sessions ≡ o
        → account o (put_object g.allocated (new_session id key token uid) g.objects)
          ≡ account o g.objects
    others i none e = refl
    others i (some q) e =
        let (below, named, on) = v.registered i q e in
        let other : (g.allocated == q) ≡ false = ground (arith, nat_beq_iff g.allocated q) in
        rw other refl

filtered-but : (id i : ℕ) (a : Option (ℕ × Bytes)) → (id == i) ≡ false → filtered (but id) i a ≡ a
filtered-but id i none miss = refl
filtered-but id i (some (uid, token)) miss = rw miss refl

-- What AddSession makes, and what ServeHTTP leaves.
abbrev EntryOf : Gateway → Option (Gateway × ℕ) → Type 0
EntryOf g none = Unit
EntryOf g (some (k, p)) = GatewayInv k × Entry g k p

abbrev JoinChange : Gateway → Option (Gateway × Joined) → Type 0
JoinChange g none = Unit
JoinChange g (some (h, result)) = Change (view g) (view h) join

-- A session that is closed as soon as it has been made leaves no trace.
Entry-close :
    (g k : Gateway) (p : ℕ) → GatewayInv k → Entry g k p → (i : ℕ) → view (close p k) i ≡ view g i
Entry-close g k p v e i =
    let thin = view-Thins v (close-GatewayInv p k v) (close-Thins p k k v refl e.on) i in
    thin
    ∙ (ap (filtered (but (k.objects p).id) i) (e.seen i)
        ∙ rw e.own (elim (Bool-cases (e.id == i)) [
          | inl hit ↦
              let same : e.id ≡ i = (nat_beq_iff e.id i).0 hit in
              rw (hit, hit) (sym e.fresh ∙ ap (view g) same)
          | inr miss ↦ rw miss (filtered-but e.id i (view g i) miss)
        ]))

emit-Entry : (a : Effect) (g k : Gateway) (p : ℕ) → Entry g k p → Entry g (emit a k) p
unfolding emit view
emit-Entry a g k p e = record {
  id = e.id;
  uid = e.uid;
  token = e.token;
  nonzero = e.nonzero;
  fresh = e.fresh;
  seen = e.seen;
  own = e.own;
  on = e.on;
}

join_added-JoinChange :
    (c : Chances) (g : Gateway) (added : Option (Gateway × ℕ))
    → EntryOf g added
    → JoinChange g (join_added c added)
unfolding join_added
join_added-JoinChange c g none e = tt
join_added-JoinChange c g (some (k, p)) (v, e) =
    let a = auth_write p (k.objects p).id (k.objects p).key in
    let e' = emit-Entry a g k p e in
    elim (Bool-cases c.writes) [
      | inl wrote ↦ rw wrote (enters e'.id e'.uid e'.token e'.nonzero e'.fresh e'.seen)
      | inr failed ↦ rw failed (rests refl (Entry-close g (emit a k) p (emit-GatewayInv a k v) e'))
    ]

add_session-EntryOf :
    (draws : List ℕ) (token : Bytes) (uid : ℕ) (g : Gateway)
    → GatewayInv g
    → EntryOf g (add_session draws token uid g)
unfolding add_session insert_drawn draw_key
add_session-EntryOf draws token uid g v = drawn_lem (draw_id draws g.sessions) refl
  where
    drawn_lem :
        (d : Option (ℕ × List ℕ))
        → draw_id draws g.sessions ≡ d
        → EntryOf g (insert_drawn (draw_key d) token uid g)
    drawn_lem none e = tt
    drawn_lem (some (id, [])) e = tt
    drawn_lem (some (id, key ∷ rest)) e =
        let (nonzero, fresh) = draw_id-fresh draws g.sessions id (key ∷ rest) e in
        (
          unfold insert_session in unfold assign in Holds-insert v id key uid token fresh,
          insert_session-Entry id key token uid g v nonzero fresh,
        )

serve_http-JoinChange :
    (redis_get : Bytes → Option Bytes) (c : Chances) (token : Bytes) (g : Gateway)
    → GatewayInv g
    → JoinChange g (serve_http redis_get c token g)
unfolding serve_http join_text join_uid
serve_http-JoinChange redis_get c [] g v = rests refl λ i. refl
serve_http-JoinChange redis_get c (b ∷ token) g v =
    text_lem (redis_get (codes "auth:" ++ (b ∷ token)))
  where
    uid_lem : (uid : Option ℕ) → JoinChange g (join_uid c (b ∷ token) uid g)
    uid_lem none = rests refl λ i. refl
    uid_lem (some uid) = elim (Bool-cases c.upgrades) [
      | inl up ↦ rw up (
          join_added-JoinChange c g (add_session c.draws (b ∷ token) uid g)
            (add_session-EntryOf c.draws (b ∷ token) uid g v))
      | inr refused ↦ rw refused (rests refl λ i. refl)
    ]

    text_lem : (text : Option Bytes) → JoinChange g (join_text c (b ∷ token) text g)
    text_lem none = rests refl λ i. refl
    text_lem (some []) = rests refl λ i. refl
    text_lem (some (d ∷ text)) = uid_lem (parse_uint32 (d ∷ text))

read_from-objects :
    (size : ℕ) (queue : List (Bytes × Bytes)) (g h : Gateway) (packet : Bytes × Bytes)
    → read_from size queue g ≡ some (packet, h)
    → h.objects ≡ g.objects
unfolding read_from
read_from-objects size [] g h packet e = cc
read_from-objects size ((payload, addr) ∷ rest) g h packet e =
    let same : record g { read_ch = rest } ≡ h = cc in sym (ap (λ x. x.objects) same)

module _ ⦃be : Backend⦄ where
  -- The event that a round of a loop is.
  unfoldable pub event : {s s' : be.Server} {g h : Gateway} → Step s g s' h → Event
  event (joins redis_get c token result e) = join
  event (kicks msg) = kick msg
  event (reads_ws opens p binary bytes e) = other
  event (reads_kcp opens p stream e) = other
  event (reads_game p r e) = other
  event (reads_datagram addr buf) = other
  event (takes_packet size payload addr e) = other
  event (writes_packet addr payload) = other
  event (accepts conn addr) = other
  event (pushes r e) = other
  event (closes p) = other
  event (notifies before after req e) = other
  event (lobby_moves m) = other

  after_step :
      {s s' : be.Server} {g h : Gateway} (step : Step s g s' h)
      → GatewayInv g
      → GatewayInv h
      → Change (view g) (view h) (event step)
  unfolding game_stream_recv event
  after_step {s} {s'} {g} {h} (joins redis_get c token result e) v w =
      subst (JoinChange g) e (serve_http-JoinChange redis_get c token g v)
  after_step {s} {s'} {g} {h} (reads_ws opens p binary bytes e) v w =
      Outcome-Change g h v w
        (subst (Outcome g) (ap (λ r. r.1) e) (ws_message-Outcome opens p binary bytes s g v))
  after_step {s} {s'} {g} {h} (reads_kcp opens p stream e) v w =
      Outcome-Change g h v w
        (subst (Outcome g) (ap (λ r. r.1) e) (kcp_message-Outcome opens p stream s g v))
  after_step {s} {s'} {g} {h} (reads_game p r e) v w =
      Outcome-Change g h v w (subst (Outcome g) e (deliver-Outcome p 1 r g v))
  after_step {s} {s'} {g} {h} (reads_datagram addr buf) v w =
      Still-Change g h v w (read_datagram-Still addr buf g)
  after_step {s} {s'} {g} {h} (takes_packet size payload addr e) v w =
      Still-Change g h v w (Still-same _ _ (read_from-objects size g.read_ch g h (payload, addr) e))
  after_step {s} {s'} {g} {h} (writes_packet addr payload) v w =
      Still-Change g h v w (Still-same _ _ (write_to-objects addr payload g))
  after_step {s} {s'} {g} {h} (accepts conn addr) v w =
      Still-Change g h v w (accept_kcp-Still conn addr g)
  after_step {s} {s'} {g} (kicks msg) v w = on_kick-Change msg g v w
  after_step {s} {s'} {g} {h} (pushes r e) v w =
      Outcome-Change g h v w (subst (Outcome g) e (on_push-Outcome r g v))
  after_step {s} {s'} {g} {h} (closes p) v w = Outcome-Change g h v w (close-Outcome p g g v refl)
  after_step {s} {s'} {g} {h} (notifies before after req e) v w =
      Still-Change g h v w (Still-same _ _ refl)
  after_step {s} {s'} {g} {h} (lobby_moves m) v w = rests refl λ i. refl

  -- The gateway refines its specification: each round of a loop, from a state that the gateway
  -- reaches, changes the accounts under the ids as one step of the specification does. When a
  -- client joins, nothing changes or a user enters under an id that is not 0 and not in use; when a
  -- kick for a uid and a token arrives, that uid keeps only the ids with this token, and a kick that
  -- cannot be read changes nothing; in any other round nothing changes or one id is given up.
  pub Step-Change :
      {s s' : be.Server} {g h : Gateway}
      → Reach s g
      → (step : Step s g s' h) → Change (view g) (view h) (event step)
  Step-Change r step = after_step step (Reach-GatewayInv r) (Reach-GatewayInv (next r step))
