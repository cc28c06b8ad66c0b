-- ===== src/Spinlock.antt =====
-- `RawSpinlock` of src/spinlock.rs, and threads that take and release it in any order of their atomic
-- steps.
pub mod Exclusion
mod Tests
use urchin.Prelude.{ℕ, ◌≡◌, Bool, true, false, ◌==◌, if◌then◌else◌}

-- `compare_exchange(current, new)` on a Boolean: whether it succeeded, and what the atomic then holds.
abbrev pub compare_exchange : Bool → Bool → Bool → Bool × Bool
compare_exchange cell false new = if cell then (false, cell) else (true, new)
compare_exchange cell true new = if cell then (true, new) else (false, cell)

pub try_lock : Bool → Bool × Bool
try_lock cell = compare_exchange cell false true

pub unlock : Bool → Bool
unlock cell = false

pub data Status : Type 0 where
  idle spinning holding : Status

pub record LockState : Type 0 where
  pub cell : Bool
  pub status : ℕ → Status

abbrev pub with_status : (ℕ → Status) → ℕ → Status → ℕ → Status
with_status status t s u = if u == t then s else status u

-- One atomic step of a thread: it enters `lock`, runs the loop's test, or drops its guard.
pub data Step : LockState → LockState → Type 0 where
  enter :
      (s : LockState) (t : ℕ)
      → s.status t ≡ idle
      → Step s (record s { status = with_status s.status t spinning })
  acquire :
      (s : LockState) (t : ℕ)
      → s.status t ≡ spinning
      → (try_lock s.cell).0 ≡ true
      → Step s (record { cell = (try_lock s.cell).1; status = with_status s.status t holding })
  retry :
      (s : LockState) (t : ℕ)
      → s.status t ≡ spinning
      → (try_lock s.cell).0 ≡ false
      → Step s (record s { cell = (try_lock s.cell).1 })
  release :
      (s : LockState) (t : ℕ)
      → s.status t ≡ holding
      → Step s (record { cell = unlock s.cell; status = with_status s.status t idle })

-- `INIT`, with no thread at the lock.
abbrev pub init : LockState
init = record { cell = false; status = λ t. idle }

pub data Reachable : LockState → Type 0 where
  start : Reachable init
  step : {s s' : LockState} → Reachable s → Step s s' → Reachable s'
