-- ===== src/Spinlock/Exclusion.antt =====
-- Mutual exclusion.
use urchin.Prelude.{ℕ, ◌≡◌, arith, true}
use urchin.Spinlock.{
  try_lock, unlock, holding, LockState, Step, enter, acquire, retry, release, Reachable, start,
  step,
}

-- The atomic is set while a thread holds the lock, and no two threads hold it.
pub record IsExclusive (s : LockState) : Type 0 where
  pub set_while_held : (i : ℕ) → s.status i ≡ holding → s.cell ≡ true
  pub only_one : (i j : ℕ) → s.status i ≡ holding → s.status j ≡ holding → i ≡ j

Step-IsExclusive : {s s' : LockState} → IsExclusive s → Step s s' → IsExclusive s'
unfolding try_lock unlock
Step-IsExclusive h (enter s t e) = record {
  set_while_held = λ i held. ground (arith, h.set_while_held i);
  only_one = λ i j held held'. ground (arith, h.only_one i j);
}
Step-IsExclusive h (acquire s t e taken) = record {
  set_while_held = λ i held. ground arith;
  only_one = λ i j held held'. ground (arith, h.set_while_held i, h.set_while_held j);
}
Step-IsExclusive h (retry s t e failed) = record {
  set_while_held = λ i held. ground (arith, h.set_while_held i);
  only_one = h.only_one;
}
Step-IsExclusive h (release s t e) = record {
  set_while_held = λ i held. ground (arith, h.only_one i t);
  only_one = λ i j held held'. ground (arith, h.only_one i j);
}

pub Reachable-IsExclusive : {s : LockState} → Reachable s → IsExclusive s
Reachable-IsExclusive start = record {
  set_while_held = λ i held. ground arith;
  only_one = λ i j held held'. ground arith;
}
Reachable-IsExclusive (step r st) = Step-IsExclusive (Reachable-IsExclusive r) st

-- In every state that threads reach by any interleaving of their steps, two threads that hold the lock
-- are the same thread.
pub mutual_exclusion :
    {s : LockState} → Reachable s → (i j : ℕ) → s.status i ≡ holding → s.status j ≡ holding → i ≡ j
mutual_exclusion r = (Reachable-IsExclusive r).only_one
