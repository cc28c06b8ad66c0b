-- ===== src/Spinlock/Tests.antt =====
-- Two threads at the lock, one of which has it.
use urchin.Prelude.{ℕ, ◌≡◌, refl, true}
use urchin.Spinlock.{
  try_lock, LockState, with_status, spinning, holding, enter, acquire, retry, init, Reachable,
  start, step,
}
use urchin.Spinlock.Exclusion.{mutual_exclusion}

abbrev one_entered : LockState
one_entered = record init { status = with_status init.status 1 spinning }

abbrev both_entered : LockState
both_entered = record one_entered { status = with_status one_entered.status 2 spinning }

abbrev second_has_it : LockState
second_has_it = record { cell = true; status = with_status both_entered.status 2 holding }

second_has_it-Reachable : Reachable second_has_it
unfolding try_lock
second_has_it-Reachable =
    step
      (step (step (step start (enter init 1 refl)) (enter one_entered 2 refl))
        (acquire both_entered 2 refl refl))
      (retry second_has_it 1 refl refl)

mutual_exclusion_example : ◌≡◌ {A = ℕ} 2 2
mutual_exclusion_example = mutual_exclusion second_has_it-Reachable 2 2 refl refl
