-- ===== src/Locks/Keeps.antt =====
-- Each section of the game server's threads by itself: it keeps the rooms well formed, and leaves
-- what the other threads rely on.
use ki_han_server_distribute.Base.{ℕ, ℤ, Option, some, ◌≡◌, refl, arith, nat_eq, int_eq}
use ki_han_server_distribute.Base.Bytes.{Bytes}
use ki_han_server_distribute.Proto.{Codec}
use ki_han_server_distribute.Sessions.{Session, Sessions, unregister_session}
use ki_han_server_distribute.Room.Invariant.{IsValid}
use ki_han_server_distribute.Room.{Room}
use ki_han_server_distribute.Manager.Invariant.{
  Inv, SameRooms, SameRooms-Inv, assign-Inv, remove_room-Inv, apply_method-Inv,
}
use ki_han_server_distribute.Manager.{
  Manager, assign, apply_method, map_uid_to_room, unmap_uid, remove_room,
}
use ki_han_server_distribute.Service.{reply, open_stream}
use ki_han_server_distribute.Control.{Game}
use ki_han_server_distribute.Threads.{Task, must, ◌>>=◌, ◌>>◌}
use ki_han_server_distribute.Threads.Rely.{Safe}
use ki_han_server_distribute.Locks.Grows.{
  Stays, Stays-refl, Grows, Grows-refl, game_rely, SameRooms-Grows, assign-Grows,
}
use ki_han_server_distribute.Locks.{read, edit}

abbrev pub Keeps : (Manager → Manager) → Type 0
Keeps f = (m : Manager) → Inv m → Inv (f m) × Grows m (f m)

-- The task is safe from any state on.
abbrev pub IsSafe : {A : Type 0} → Task Game A → Type 0
IsSafe t = (s : Game) → Safe game_rely t s

pub SameRooms-Keeps : (f : Manager → Manager) → ((m : Manager) → SameRooms m (f m)) → Keeps f
SameRooms-Keeps f same m v = (SameRooms-Inv (same m) v, SameRooms-Grows (same m))

pub reply-Keeps : (s : Session) (c : ℕ) (payload : Bytes) → Keeps (reply s c payload)
unfolding reply
reply-Keeps s c payload =
    SameRooms-Keeps _ (λ m. record { rooms = refl; objects = refl; allocated = refl })

pub map_uid_to_room-Keeps : (uid : ℕ) (room_id : ℤ) → Keeps (map_uid_to_room uid room_id)
unfolding map_uid_to_room
map_uid_to_room-Keeps uid room_id =
    SameRooms-Keeps _ (λ m. record { rooms = refl; objects = refl; allocated = refl })

pub unmap_uid-Keeps : (uid : ℕ) → Keeps (unmap_uid uid)
unfolding unmap_uid
unmap_uid-Keeps uid =
    SameRooms-Keeps _ (λ m. record { rooms = refl; objects = refl; allocated = refl })

pub open_stream-Keeps : ⦃pb : Codec⦄ (s : Session) (uid : ℕ) → Keeps (open_stream s uid)
unfolding open_stream
open_stream-Keeps s uid =
    SameRooms-Keeps _ (λ m. record { rooms = refl; objects = refl; allocated = refl })

pub unregister-Keeps : (uid : ℕ) → Keeps (λ m. record m { net = unregister_session uid m.net })
unregister-Keeps uid =
    SameRooms-Keeps _ (λ m. record { rooms = refl; objects = refl; allocated = refl })

pub remove_room-Keeps : (room_id : ℤ) → Keeps (remove_room room_id)
unfolding remove_room
remove_room-Keeps room_id m v = (
  unfold remove_room in remove_room-Inv room_id m v,
  record { pointers = omega arith; stays = λ p h. Stays-refl (m.objects p) },
)

-- A method of a room that does not broadcast.
pub assign-Keeps :
    (p : ℕ) (f : Room → Room)
    → ((r : Room) → IsValid r → IsValid (f r) × Stays r (f r))
    → Keeps (λ m. assign p (f (m.objects p)) m)
assign-Keeps p f keeps m v =
    let (ok, stays) = keeps (m.objects p) (v.valid p) in
    (assign-Inv p _ m stays.id ok v, assign-Grows p _ m stays)

-- A method of a room that broadcasts.
pub apply_method-Keeps :
    (p : ℕ) (method : Room → Sessions → Room × Sessions)
    → ((r : Room) (n : Sessions) → IsValid r → IsValid (method r n).0)
    → ((r : Room) (n : Sessions) → Stays r (method r n).0)
    → Keeps (apply_method p method)
unfolding apply_method
apply_method-Keeps p method valid stays m v =
    let grown = assign-Grows p _ m (stays (m.objects p) m.net) in
    (
      unfold apply_method in apply_method-Inv p method m (λ r n. (stays r n).id) valid v,
      record { pointers = grown.pointers; stays = grown.stays },
    )

-- A section that changes the state, and one that reads it in front of a task that is safe with
-- whatever was read.
pub edit-IsSafe : (f : Manager → Manager) → Keeps f → IsSafe (edit f)
unfolding Safe game_rely
edit-IsSafe f keeps s = λ s' grows v. let (kept, grown) = keeps s'.manager v in (kept, grown, tt)

pub edit_then :
    {B : Type 0} (f : Manager → Manager) (t : Task Game B)
    → Keeps f
    → IsSafe t
    → IsSafe (edit f >> t)
unfolding Safe game_rely ◌>>=◌
edit_then f t keeps safe s =
    λ s' grows v. let (kept, grown) = keeps s'.manager v in (kept, grown, safe _)

pub read_then :
    {A B : Type 0} (f : Manager → A) (k : A → Task Game B) (s : Game)
    → ((s' : Game)
        → Grows s.manager s'.manager
        → Inv s'.manager
        → Safe game_rely (k (f s'.manager)) s')
    → Safe game_rely (read f >>= k) s
unfolding Safe game_rely ◌>>=◌
read_then f k s rest = λ s' grows v. (v, Grows-refl s'.manager, rest s' grows v)

-- What is read has a value.
pub must_then :
    {A B : Type 0} (o : Option A) (a : A) (k : A → Task Game B) (s : Game)
    → o ≡ some a
    → Safe game_rely (k a) s
    → Safe game_rely (must o >>= k) s
unfolding ◌>>=◌
must_then o a k s e safe = rw e safe
