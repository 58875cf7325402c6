-- ===== src/Chain/Locks.antt =====
-- The lock `c.mu` of the chain, a `sync.RWMutex`, and how the orphan scanner and the import take it.
-- Goroutines run interleaved; a goroutine is what it still does to the lock.
pub mod Frozen
use poai.Prelude.{
  ℕ, zero, suc, ◌≡◌, Option, none, some, Bool, true, false, ◌||◌, List, [], ◌∷◌, ◌==◌, nat_eq,
  bytes_eq, if◌then◌else◌,
}

-- `Lock` is in two parts, as in the standard library: it announces the writer, which keeps new readers
-- and other writers out, and then waits for the readers that are left.
pub data Op : Type 0 where
  r_lock r_unlock announce acquire w_unlock : Op

-- The goroutines that hold a read lock, once for each, and the one whose `Lock` has been announced.
pub record Mutex : Type 0 where
  pub readers : List ℕ
  pub writer : Option ℕ

abbrev pub held_by : ℕ → List ℕ → ℕ
held_by i [] = 0
held_by i (j ∷ js) = if i == j then suc (held_by i js) else held_by i js

abbrev pub release_by : ℕ → List ℕ → List ℕ
release_by i [] = []
release_by i (j ∷ js) = if i == j then js else j ∷ release_by i js

abbrev pub free : Option ℕ → Bool
free none = true
free (some j) = false

abbrev pub owns : ℕ → Option ℕ → Bool
owns i none = false
owns i (some j) = i == j

abbrev pub no_readers : List ℕ → Bool
no_readers [] = true
no_readers (j ∷ js) = false

-- What an operation of the goroutine `i` does; `none` while it waits.
unfoldable pub operate : ℕ → Op → Mutex → Option Mutex
operate i r_lock m = if free m.writer then some (record m { readers = i ∷ m.readers }) else none
operate i r_unlock m = elim (held_by i m.readers) [
  | zero ↦ none
  | suc _ ↦ some (record m { readers = release_by i m.readers })
]
operate i announce m = if free m.writer then some (record m { writer = some i }) else none
operate i acquire m =
    if owns i m.writer then (if no_readers m.readers then some m else none) else none
operate i w_unlock m = if owns i m.writer then some (record m { writer = none }) else none

pub record System : Type 0 where
  pub mutex : Mutex
  pub todo : ℕ → List Op

abbrev pub advance : ℕ → List Op → (ℕ → List Op) → ℕ → List Op
advance i ops todo j = if i == j then ops else todo j

-- Any goroutine whose next operation does not wait may go on.
pub data Step (s : System) : System → Type 0 where
  run :
      (i : ℕ) (op : Op) (ops : List Op) (m : Mutex)
      → s.todo i ≡ op ∷ ops
      → operate i op s.mutex ≡ some m
      → Step s (record { mutex = m; todo = advance i ops s.todo })

pub data Reach (s : System) : System → Type 0 where
  here : Reach s s
  next : {t u : System} → Reach s t → Step t u → Reach s u

-- `ImportBlock` of a block that is refused before the retarget: `Lock` and the deferred `Unlock`.
unfoldable pub import_ops : List Op → List Op
import_ops ops = announce ∷ acquire ∷ w_unlock ∷ ops

-- `getBlockByHash`
unfoldable pub get_block_by_hash_ops : List Op → List Op
get_block_by_hash_ops ops = r_lock ∷ r_unlock ∷ ops

-- The loop over the orphans of one parent; an orphan is whether it fits on a parent that is found.
unfoldable pub scan_orphans_ops : List Bool → List Op → List Op
unfolding import_ops get_block_by_hash_ops
scan_orphans_ops [] ops = ops
scan_orphans_ops (true ∷ orphans) ops =
    get_block_by_hash_ops (import_ops (scan_orphans_ops orphans ops))
scan_orphans_ops (false ∷ orphans) ops = get_block_by_hash_ops (scan_orphans_ops orphans ops)

-- The goroutine of `ScanOrphanPool`.
unfoldable pub scan_orphan_pool_ops : List (List Bool) → List Op
unfolding scan_orphans_ops
scan_orphan_pool_ops [] = []
scan_orphan_pool_ops (orphans ∷ pool) =
    r_lock ∷ scan_orphans_ops orphans (r_unlock ∷ scan_orphan_pool_ops pool)

abbrev pub any : List Bool → Bool
any [] = false
any (b ∷ bs) = b || any bs

abbrev pub any_fits : List (List Bool) → Bool
any_fits [] = false
any_fits (orphans ∷ pool) = any orphans || any_fits pool
