-- ===== src/Threads/Pool.antt =====
-- Any number of threads over one state, interleaved section by section in any order.
use ki_han_server_distribute.Base.{List, [], ◌∷◌, All}
use ki_han_server_distribute.Threads.{Task, atomic}
use ki_han_server_distribute.Threads.Rely.{Rely, Safe, Safe-Grows}

pub record Pool (S A : Type 0) : Type 0 where
  pub state : S
  pub tasks : List (Task S A)

-- One thread of the list does one section.
pub data Move {S A : Type 0} (s : S) : List (Task S A) → S → List (Task S A) → Type 0 where
  first :
      {f : S → S} {k : S → Task S A} {ts : List (Task S A)}
      → Move s (atomic f k ∷ ts) (f s) (k s ∷ ts)
  later :
      {t : Task S A} {ts ts' : List (Task S A)} {s' : S}
      → Move s ts s' ts'
      → Move s (t ∷ ts) s' (t ∷ ts')

module _ {S A : Type 0} (Starts : Task S A → Type 0) where
  -- A section, or the start of a thread that may start at any time.
  pub data PoolStep (p : Pool S A) : Pool S A → Type 0 where
    moves :
        {s : S} {ts : List (Task S A)}
        → Move p.state p.tasks s ts
        → PoolStep p (record { state = s; tasks = ts })
    starts :
        (t : Task S A) → Starts t → PoolStep p (record { state = p.state; tasks = t ∷ p.tasks })

  pub data PoolReach (s₀ : S) : Pool S A → Type 0 where
    begin : PoolReach s₀ (record { state = s₀; tasks = [] })
    next : {p q : Pool S A} → PoolReach s₀ p → PoolStep p q → PoolReach s₀ q

module _ {S A : Type 0} (R : Rely S) where
  abbrev pub AllSafe : List (Task S A) → S → Type 0
  AllSafe ts s = All (λ t. Safe R t s) ts

  AllSafe-Grows : (ts : List (Task S A)) {s s' : S} → R.Grows s s' → AllSafe ts s → AllSafe ts s'
  AllSafe-Grows [] g h = tt
  AllSafe-Grows (t ∷ ts) g h = (Safe-Grows R t g h.0, AllSafe-Grows ts g h.1)

  Move-Safe :
      {s s' : S} {ts ts' : List (Task S A)}
      → Move s ts s' ts'
      → R.Holds s
      → AllSafe ts s
      → R.Holds s' × R.Grows s s' × AllSafe ts' s'
  unfolding Safe
  Move-Safe {s} (first {ts}) v h =
      let (kept, grown, after) = h.0 s (R.grows_refl s) v in
      (kept, grown, (after, AllSafe-Grows ts grown h.1))
  Move-Safe (later {t} m) v h =
      let (kept, grown, after) = Move-Safe m v h.1 in
      (kept, grown, (Safe-Grows R t grown h.0, after))

  module _ (Starts : Task S A → Type 0)
      (starts-Safe : (t : Task S A) (s : S) → Starts t → R.Holds s → Safe R t s) where
    -- Threads that are safe from any good state on keep the state good together.
    pub PoolReach-Safe :
        {s₀ : S} {p : Pool S A}
        → R.Holds s₀
        → PoolReach Starts s₀ p
        → R.Holds p.state × AllSafe p.tasks p.state
    PoolReach-Safe v begin = (v, tt)
    PoolReach-Safe v (next r (moves m)) =
        let (v', h) = PoolReach-Safe v r in
        let (kept, grown, after) = Move-Safe m v' h in (kept, after)
    PoolReach-Safe v (next {p} r (starts t go)) =
        let (v', h) = PoolReach-Safe v r in (v', (starts-Safe t p.state go v', h))
