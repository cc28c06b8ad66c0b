-- ===== src/Asynchronous/Executor/Tests.antt =====
-- Two tasks that wait for a timer each, on a queue of lists.
use urchin.Prelude.{
  ℕ, ◌≡◌, refl, arith, List, [], ◌∷◌, Option, some, false, if◌then◌else◌, ◌==◌, ◌>>=◌,
}
use urchin.Asynchronous.ArrayQueue.Tests.{list_queue, list_queue-IsBounded}
use urchin.Asynchronous.Timer
use urchin.Asynchronous.Timer.{SharedState, Timers, check_timerfutures_from_interrupt}
use urchin.Asynchronous.Timer.States.{AllDistinct}
use urchin.Asynchronous.Timer.Expiry.{AreChecked, check_timerfutures-AreChecked}
use urchin.Asynchronous.Executor.{Tasks, spawn, run, poll_task, poll_timer}
use urchin.Asynchronous.Executor.Drain.{Polled, run-Polled}
use urchin.Asynchronous.Executor.Wakes.{poll_timer-IsQuiet}

-- Timer 0 expires at 5 and timer 1 at 8; the tasks 10 and 11 wait for them.
abbrev timers : Timers (List ℕ)
timers = record {
  states = λ i.
      if i == 0
      then record { completed = false; expired_monotonic = 5; waker = some 10 }
      else record { completed = false; expired_monotonic = 8; waker = some 11 };
  next_state = 2;
  registered = 0 ∷ 1 ∷ [];
  tasks = [];
}

abbrev tasks : Tasks (List ℕ) ℕ
tasks = record {
  futures = λ i. if i == 10 then some 0 else some 1;
  next_task = 12;
  timers = timers;
}

timers-AllDistinct : AllDistinct timers.registered
timers-AllDistinct = ((λ e. omega (arith, e), tt), (tt, tt))

check_timerfutures-AreChecked_example :
    (w' : Timers (List ℕ)) × (check_timerfutures_from_interrupt list_queue 6 timers ≡ some w')
    × AreChecked list_queue (λ q. q) 100_000 list_queue-IsBounded 6 (0 ∷ 1 ∷ []) [] timers w'
check_timerfutures-AreChecked_example =
    check_timerfutures-AreChecked list_queue (λ q. q) 100_000 list_queue-IsBounded 6 timers
      timers-AllDistinct (omega arith) (omega arith)

-- Both tasks are queued.
abbrev ready : Tasks (List ℕ) ℕ
ready = record tasks { timers = record timers { tasks = 11 ∷ 10 ∷ [] } }

run-Polled_example :
    (e' : Tasks (List ℕ) ℕ) × (run list_queue poll_timer 3 ready ≡ some (some e'))
    × Polled list_queue (λ q. q) 100_000 list_queue-IsBounded poll_timer (11 ∷ 10 ∷ []) ready e'
    × (e'.timers.tasks ≡ [])
run-Polled_example =
    run-Polled list_queue (λ q. q) 100_000 list_queue-IsBounded poll_timer
      (poll_timer-IsQuiet list_queue (λ q. q) 100_000 list_queue-IsBounded) (11 ∷ 10 ∷ []) ready
      refl

abbrev spawned : Option (Option (Tasks (List ℕ) ℕ))
spawned = spawn list_queue poll_timer 1 tasks >>= run list_queue poll_timer 2

spawned_waits : (spawned >>= λ o. o >>= λ e. (e.timers.states 1).waker) ≡ some 12
unfolding spawn run poll_task poll_timer Timer.poll
spawned_waits = refl
