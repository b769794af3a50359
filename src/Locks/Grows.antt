-- ===== src/Locks/Grows.antt =====
-- What the sections of the game server's threads leave of the rooms, whatever thread they belong to:
-- pointers stay good, a room keeps its id, and a player keeps its place in the room.
use ki_han_server_distribute.Base.{
  ℕ, ◌≤◌, ◌<◌, some, ◌≡◌, refl, ◌∙◌, inl, inr, arith, ◌==◌, nat_eq, nat_beq_iff, Bool-cases,
}
use ki_han_server_distribute.Base.Map.{find}
use ki_han_server_distribute.Room.{Room, Player}
use ki_han_server_distribute.Manager.Invariant.{Inv, SameRooms, objects-assign}
use ki_han_server_distribute.Manager.{Manager, assign}
use ki_han_server_distribute.Control.{Game}
use ki_han_server_distribute.Threads.Rely.{Rely}

-- The players that the room has, it has behind the change too, on the same seats.
pub record Stays (r r' : Room) : Type 0 where
  pub id : r'.id ≡ r.id
  pub seats :
      (u : ℕ) (q : Player)
      → find u r.players ≡ some q
      → (q' : Player) × (find u r'.players ≡ some q') × (q'.game_id ≡ q.game_id)

pub Stays-refl : (r : Room) → Stays r r
Stays-refl r = record { id = refl; seats = λ u q h. (q, h, refl) }

pub Stays-trans : {r r' r'' : Room} → Stays r r' → Stays r' r'' → Stays r r''
Stays-trans a b = record {
  id = b.id ∙ a.id;
  seats = λ u q h.
      let (q', h', e) = a.seats u q h in let (q'', h'', e') = b.seats u q' h' in (q'', h'', e' ∙ e);
}

pub record Grows (m m' : Manager) : Type 0 where
  pub pointers : m.allocated ≤ m'.allocated
  pub stays : (p : ℕ) → p < m.allocated → Stays (m.objects p) (m'.objects p)

pub Grows-refl : (m : Manager) → Grows m m
Grows-refl m = record { pointers = omega arith; stays = λ p h. Stays-refl (m.objects p) }

pub Grows-trans : {m m' m'' : Manager} → Grows m m' → Grows m' m'' → Grows m m''
Grows-trans a b = record {
  pointers = omega (arith, a.pointers, b.pointers);
  stays = λ p h. Stays-trans (a.stays p h) (b.stays p (omega (arith, a.pointers)));
}

-- What every thread of the game server relies on and guarantees.
unfoldable pub game_rely : Rely Game
game_rely = record {
  Holds = λ g. Inv g.manager;
  Grows = λ g g'. Grows g.manager g'.manager;
  grows_refl = λ g. Grows-refl g.manager;
  grows_trans = Grows-trans;
}

pub SameRooms-Grows : {m m' : Manager} → SameRooms m m' → Grows m m'
SameRooms-Grows {m} {m'} s = record {
  pointers = rw s.allocated (omega arith);
  stays = λ p h. rw s.objects (Stays-refl (m.objects p));
}

pub assign-Grows : (p : ℕ) (r : Room) (m : Manager) → Stays (m.objects p) r → Grows m (assign p r m)
assign-Grows p r m s = record {
  pointers = unfold assign in omega arith;
  stays = λ q h. rw (objects-assign p q r m) (elim (Bool-cases (p == q)) [
    | inl hit ↦ let e : p ≡ q = (nat_beq_iff p q).0 hit in rw hit (rw e at s)
    | inr miss ↦ rw miss (Stays-refl (m.objects q))
  ]);
}
