-- ===== src/Asynchronous/Executor.antt =====
-- `Executor` of src/asynchronous/executor.rs. A task is known by a number, since its wakers share it; what
-- a future does when it is polled is a parameter.
pub mod Drain
pub mod Wakes
pub mod Rounds
mod Tests
use urchin.Prelude.{if◌then◌else◌, ℕ, zero, suc, ◌≡◌, Option, none, some, List, [], ◌∷◌, ◌>>=◌}
use urchin.Asynchronous.ArrayQueue.{ArrayQueue}
use urchin.Asynchronous.Timer
use urchin.Asynchronous.Timer.{Timers, store}

-- The slots of the tasks' futures, the number of the next task, and what the futures act on.
pub record Tasks (Q : Type 0) (F : Type 0) : Type 0 where
  pub futures : ℕ → Option F
  pub next_task : ℕ
  pub timers : Timers Q

abbrev pub with_tasks : {Q : Type 0} {F : Type 0} → Q → Tasks Q F → Tasks Q F
with_tasks q e = record e { timers = record e.timers { tasks = q } }

module _ {Q : Type 0} {F : Type 0} (queue : ArrayQueue Q ℕ)
    (poll : ℕ → F → Tasks Q F → Option (Option F × Tasks Q F)) where
  unfoldable pub spawn : F → Tasks Q F → Option (Tasks Q F)
  spawn future e =
      let task = e.next_task in
      queue.push task e.timers.tasks >>= λ q. some (record (with_tasks q e) {
        futures = store task (some future) e.futures;
        next_task = suc task;
      })

  -- The body of the loop of `run`: `poll` gives the future again where it is pending. The slot is locked
  -- and empty meanwhile.
  unfoldable pub poll_task : ℕ → Tasks Q F → Option (Tasks Q F)
  poll_task task e = elim (e.futures task) [
    | none ↦ some e
    | some future ↦
        poll task future (record e { futures = store task none e.futures }) >>= λ (after, e').
        elim after [
          | none ↦ some e'
          | some future' ↦ some (record e' { futures = store task (some future') e'.futures })
        ]
  ]

  -- `run`, for at most the given number of tests of the loop: `none` in front is a loop that still runs,
  -- behind it a panic.
  unfoldable pub run : ℕ → Tasks Q F → Option (Option (Tasks Q F))
  unfolding poll_task
  run zero e = none
  run (suc n) e = elim (queue.pop e.timers.tasks) [
    | none ↦ some (some e)
    | some (task, q) ↦ elim (poll_task task (with_tasks q e)) [
      | none ↦ some none
      | some e' ↦ run n e'
    ]
  ]

-- A future that is one timer.
pub poll_timer : {Q : Type 0} → ℕ → ℕ → Tasks Q ℕ → Option (Option ℕ × Tasks Q ℕ)
unfolding Timer.poll
poll_timer task id e =
    let (ready, w) = Timer.poll id task e.timers in
    some (if ready then none else some id, record e { timers = w })
