-- ===== src/Manager/Destroy.antt =====
-- `DestroyRoom` and `UnmapUid` in room_manager.cpp.
use ki_han_server_distribute.Base.{
  ℕ, ℤ, none, some, List, [], ◌∷◌, ◌≡◌, refl, arith, if◌then◌else◌, ◌==◌, nat_eq, int_eq,
  nat_beq_iff, elem,
}
use ki_han_server_distribute.Base.Map.{find, find-erase}
use ki_han_server_distribute.Manager.Invariant.{unmap_uids-SameRooms}
use ki_han_server_distribute.Manager.{
  Manager, get_room, unmap_uid, unmap_uids, destroy, destroy_room, remove_room,
}

pub find-unmap_uids :
    (uids : List ℕ) (u : ℕ) (m : Manager)
    → find u (unmap_uids uids m).uid_to_room ≡ (if elem u uids then none else find u m.uid_to_room)
unfolding unmap_uids elem
find-unmap_uids [] u m = refl
find-unmap_uids (v ∷ vs) u m =
    unfold unmap_uid in
    ground
      (arith, find-unmap_uids vs u (unmap_uid v m), find-erase v u m.uid_to_room, nat_beq_iff v u)

pub unmap_uids-net : (uids : List ℕ) (m : Manager) → (unmap_uids uids m).net ≡ m.net
unfolding unmap_uids
unmap_uids-net [] m = refl
unmap_uids-net (v ∷ vs) m = unfold unmap_uid in unmap_uids-net vs (unmap_uid v m)

-- What DestroyRoom does to a registered room.
pub destroy_room_lem :
    (i : ℤ) (p : ℕ) (m : Manager)
    → find i m.rooms ≡ some p
    → destroy_room i m ≡ remove_room i (unmap_uids (m.objects p).player_uids m)
unfolding destroy_room destroy
destroy_room_lem i p m e = rw (e, destroy)

-- DestroyRoom of a registered room takes out the room, keeps every other room, and unmaps the
-- room's players, whichever room they were mapped to, and nobody else.
pub destroy_room_found :
    (i : ℤ) (p : ℕ) (m : Manager)
    → find i m.rooms ≡ some p
    → ((j : ℤ) → get_room (destroy_room i m) j ≡ (if i == j then none else get_room m j))
      × ((u : ℕ)
          → find u (destroy_room i m).uid_to_room
            ≡ (if elem u (m.objects p).player_uids then none else find u m.uid_to_room))
unfolding get_room
destroy_room_found i p m e =
    let same = unmap_uids-SameRooms (m.objects p).player_uids m in
    rw (destroy_room_lem i p m e) (
      unfold remove_room in
      (
        λ j. rw same.rooms (find-erase i j m.rooms),
        λ u. find-unmap_uids (m.objects p).player_uids u m,
      ))
