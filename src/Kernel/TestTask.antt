-- ===== src/Kernel/TestTask.antt =====
-- The two test tasks that `start_rust` of src/lib.rs spawns. Each prints the time and waits for a timer, for
-- ever: the `async` block as the state machine that it is compiled to.
pub mod Poll
pub mod Alive
pub mod Resumed
pub mod Runs
pub mod Started
use urchin.Prelude.{ℕ, zero, suc, Option, none, some, true, false, ◌>>=◌}
use urchin.Asynchronous.ArrayQueue.{ArrayQueue}
use urchin.Asynchronous.Timer
use urchin.Asynchronous.Executor.{Tasks, spawn}

-- The nanoseconds of its timers, how often it has printed, and the timer that it awaits.
pub record TestTask : Type 0 where
  pub period : ℕ
  pub printed : ℕ
  pub timer : Option ℕ

abbrev pub test_task : ℕ → TestTask
test_task period = record { period = period; printed = 0; timer = none }

module _ {Q : Type 0} (queue : ArrayQueue Q ℕ) (nowtime : ℕ → ℕ) where
  -- At most the given number of steps of the loop, to where it awaits a timer that is not completed;
  -- `none` is a panic, or that the steps do not suffice. The clock shows `nowtime n` when timer n is made.
  pub resume : ℕ → ℕ → TestTask → Tasks Q TestTask → Option (Option TestTask × Tasks Q TestTask)
  unfolding Timer.poll
  resume zero task f e = none
  resume (suc n) task f e = elim f.timer [
    | none ↦ Timer.new queue (nowtime e.timers.next_state) f.period e.timers >>= λ (id, w).
        resume n task (record f { printed = suc f.printed; timer = some id })
          (record e { timers = w })
    | some id ↦
        let (ready, w) = Timer.poll id task e.timers in
        elim ready [
          | true ↦ resume n task (record f { timer = none }) (record e { timers = w })
          | false ↦ some (some f, record e { timers = w })
        ]
  ]

  -- Three steps are enough: a completed timer, a new one, and its first poll.
  unfoldable pub poll_test_task :
      ℕ → TestTask → Tasks Q TestTask → Option (Option TestTask × Tasks Q TestTask)
  unfolding resume
  poll_test_task = resume 3

  -- The tasks of five and of eight seconds.
  unfoldable pub spawn_test_tasks : Tasks Q TestTask → Option (Tasks Q TestTask)
  spawn_test_tasks e =
      spawn queue poll_test_task (test_task 5_000_000_000) e
      >>= spawn queue poll_test_task (test_task 8_000_000_000)
