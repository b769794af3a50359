-- ===== src/Manager/Invariant.antt =====
-- What room_manager.cpp keeps true of the rooms: `rooms_` leads to rooms of the same id, and every
-- room object is valid, also those that are in no map any more.
use ki_han_server_distribute.Base.{
  ℕ, ◌<◌, ℤ, pos, some, List, [], ◌∷◌, ◌≡◌, refl, ap, ◌∙◌, subst, inl, inr, arith, if◌then◌else◌,
  ◌==◌, nat_eq, int_eq, nat_beq_iff, int_beq_iff, Bool-cases, Option-cases,
}
use ki_han_server_distribute.Base.Map.{find, Unique, find-set, find-erase, Unique-set, Unique-erase}
use ki_han_server_distribute.Sessions.{Sessions}
use ki_han_server_distribute.Room.Invariant.{IsValid, new_room-IsValid}
use ki_han_server_distribute.Room.{Room, new_room}
use ki_han_server_distribute.Manager.{
  Manager, empty_manager, assign, make_shared, found_or_made, get_or_create_room, remove_room,
  unmap_uid, unmap_uids, destroy, destroy_room, apply_method,
}

pub record Inv (m : Manager) : Type 0 where
  pub unique : Unique m.rooms
  pub registered :
      (i : ℤ) (p : ℕ) → find i m.rooms ≡ some p → (p < m.allocated) × ((m.objects p).id ≡ i)
  pub valid : (p : ℕ) → IsValid (m.objects p)

pub empty_manager-Inv : Inv empty_manager
unfolding empty_manager find
empty_manager-Inv = record {
  unique = tt;
  registered = λ i p h. cc;
  valid = λ p. new_room-IsValid (pos 0);
}

-- Two states with the same rooms.
pub record SameRooms (m m' : Manager) : Type 0 where
  pub rooms : m'.rooms ≡ m.rooms
  pub objects : m'.objects ≡ m.objects
  pub allocated : m'.allocated ≡ m.allocated

pub SameRooms-Inv : {m m' : Manager} → SameRooms m m' → Inv m → Inv m'
SameRooms-Inv {m} {m'} s v = record {
  unique = rw s.rooms v.unique;
  registered = rw (s.rooms, s.objects, s.allocated) v.registered;
  valid = rw s.objects v.valid;
}

pub objects-assign_self : (p : ℕ) (r : Room) (m : Manager) → (assign p r m).objects p ≡ r
unfolding assign
objects-assign_self p r m = ground (arith, nat_beq_iff p p)

pub objects-assign :
    (p q : ℕ) (r : Room) (m : Manager)
    → (assign p r m).objects q ≡ (if p == q then r else m.objects q)
unfolding assign
objects-assign p q r m = refl

-- A predicate of rooms that held of all objects holds of them after one is changed, if it holds of
-- the new value.
pub assign_all {ℓ} :
    (P : Room → Type ℓ) (p : ℕ) (r : Room) (m : Manager)
    → P r
    → ((q : ℕ) → P (m.objects q))
    → (q : ℕ) → P ((assign p r m).objects q)
unfolding assign
assign_all P p r m new old q = elim (Bool-cases (p == q)) [
  | inl hit ↦ rw hit new
  | inr miss ↦ rw miss (old q)
]

id-assign :
    (p q : ℕ) (r : Room) (m : Manager)
    → r.id ≡ (m.objects p).id
    → ((assign p r m).objects q).id ≡ (m.objects q).id
unfolding assign
id-assign p q r m same = elim (Bool-cases (p == q)) [
  | inl hit ↦ let e : p ≡ q = (nat_beq_iff p q).0 hit in rw hit (rw e at same)
  | inr miss ↦ rw miss refl
]

pub assign-Inv :
    (p : ℕ) (r : Room) (m : Manager)
    → r.id ≡ (m.objects p).id
    → IsValid r
    → Inv m
    → Inv (assign p r m)
assign-Inv p r m same ok v = record {
  unique = unfold assign in v.unique;
  registered = λ i q h.
      let (below, named) = v.registered i q (unfold assign in h) in
      (unfold assign in below, id-assign p q r m same ∙ named);
  valid = assign_all IsValid p r m ok v.valid;
}

pub remove_room-Inv : (i : ℤ) (m : Manager) → Inv m → Inv (remove_room i m)
unfolding remove_room
remove_room-Inv i m v = record {
  unique = Unique-erase i m.rooms v.unique;
  registered = λ j p h. v.registered j p (ground (arith, find-erase i j m.rooms));
  valid = v.valid;
}

make_shared-Inv : (i : ℤ) (m : Manager) → Inv m → Inv (make_shared i m).0
unfolding make_shared
make_shared-Inv i m v = record {
  unique = Unique-set i m.allocated m.rooms v.unique;
  registered = λ j q h. elim (Bool-cases (i == j)) [
    | inl hit ↦
        let e : i ≡ j = (int_beq_iff i j).0 hit in
        let p : m.allocated ≡ q = ground (arith, find-set i j m.allocated m.rooms) in
        (
          omega (arith, p),
          subst (λ x. ((assign m.allocated (new_room i) m).objects x).id ≡ j) p
              (ap (λ (r : Room). r.id) (objects-assign_self m.allocated (new_room i) m)
                ∙ unfold new_room in e),
        )
    | inr miss ↦
        let (below, named) = v.registered j q (ground (arith, find-set i j m.allocated m.rooms)) in
        (
          omega (arith, below),
          ap (λ (r : Room). r.id) (objects-assign m.allocated q (new_room i) m)
              ∙ ground (arith, nat_beq_iff m.allocated q),
        )
  ];
  valid = assign_all IsValid m.allocated (new_room i) m (new_room-IsValid i) v.valid;
}

-- The room of an id: the pointer found or made is the one that the map then holds.
pub get_or_create_room-Inv : (i : ℤ) (m : Manager) → Inv m → Inv (get_or_create_room i m).0
unfolding get_or_create_room found_or_made
get_or_create_room-Inv i m v = elim (Option-cases (find i m.rooms)) [
  | inl e ↦ rw (e, found_or_made) (make_shared-Inv i m v)
  | inr (p, e) ↦ rw (e, found_or_made) v
]

pub unmap_uids-SameRooms : (uids : List ℕ) (m : Manager) → SameRooms m (unmap_uids uids m)
unfolding unmap_uids
unmap_uids-SameRooms [] m = record { rooms = refl; objects = refl; allocated = refl }
unmap_uids-SameRooms (u ∷ uids) m =
    unfold unmap_uid in
    let rest = unmap_uids-SameRooms uids (unmap_uid u m) in
    record { rooms = rest.rooms; objects = rest.objects; allocated = rest.allocated }

pub destroy_room-Inv : (i : ℤ) (m : Manager) → Inv m → Inv (destroy_room i m)
unfolding destroy_room destroy
destroy_room-Inv i m v = elim (Option-cases (find i m.rooms)) [
  | inl e ↦ rw (e, destroy) v
  | inr (p, e) ↦
      rw (e, destroy)
        (remove_room-Inv i _ (SameRooms-Inv (unmap_uids-SameRooms (m.objects p).player_uids m) v))
]

pub apply_method-Inv :
    (p : ℕ) (method : Room → Sessions → Room × Sessions) (m : Manager)
    → ((r : Room) (n : Sessions) → ((method r n).0.id ≡ r.id))
    → ((r : Room) (n : Sessions) → IsValid r → IsValid (method r n).0)
    → Inv m
    → Inv (apply_method p method m)
unfolding apply_method
apply_method-Inv p method m same keeps v =
    let next = method (m.objects p) m.net in
    SameRooms-Inv {m = assign p next.0 m}
      (record { rooms = refl; objects = refl; allocated = refl })
      (assign-Inv p next.0 m (same (m.objects p) m.net) (keeps (m.objects p) m.net (v.valid p)) v)
