-- ===== src/Kernel/MainLoop/Tests.antt =====
-- The main loop on a queue of lists, with a device that counts its interrupts.
use urchin.Prelude.{
  ℕ, ◌+◌, ◌*◌, ◌<◌, ◌≡◌, refl, arith, List, [], ◌∷◌, Option, none, some, true, false, replicate,
}
use urchin.Arch.Apic
use urchin.Arch.Apic.{vector_irq_base}
use urchin.Arch.Tests.{Board, board, board_machine}
use urchin.Asynchronous.ArrayQueue.Tests.{list_queue, list_queue-IsBounded}
use urchin.Asynchronous.Timer
use urchin.Asynchronous.Executor.{Tasks, spawn, run, poll_task}
use urchin.Interrupt.{Cpu, timer_irq}
use urchin.Kernel.TestTask.{TestTask, poll_test_task, spawn_test_tasks}
use urchin.Kernel.TestTask.Alive.{AllAwake}
use urchin.Kernel.TestTask.Started.{IsNew}
use urchin.Kernel.MainLoop.{Handler, timer, World, interrupted, loop_body, Reach, here, next, body}
use urchin.Kernel.MainLoop.Prints.{reached-AllAwake, prints_again}

-- Timer n is made at the time 1000 * n.
abbrev clock : ℕ → ℕ
clock n = n * 1000

abbrev idle_tasks : Tasks (List ℕ) TestTask
idle_tasks = record {
  futures = λ i. none;
  next_task = 0;
  timers = record {
    states = λ i. record { completed = false; expired_monotonic = 0; waker = none };
    next_state = 0;
    registered = [];
    tasks = [];
  };
}

idle_tasks-IsNew : IsNew list_queue (λ q. q) 100_000 list_queue-IsBounded clock idle_tasks
idle_tasks-IsNew = record {
  no_task = refl;
  no_timer = refl;
  no_future = λ i. refl;
  next_task = refl;
  next_state = refl;
}

abbrev TestCpu : Type 0
TestCpu = Cpu Board (Handler ℕ) (World (List ℕ) ℕ)

abbrev or_else : {A : Type 0} → A → Option A → A
or_else a none = a
or_else a (some b) = b

abbrev count_interrupt : ℕ → ℕ → Option ℕ
count_interrupt d n = some (n + 1)

abbrev launched : TestCpu
launched = record {
  irq_handlers = record { handlers = some timer ∷ replicate 255 none };
  apic = Apic.new board;
  enabled = true;
  world = record {
    executor = or_else idle_tasks (spawn_test_tasks list_queue clock idle_tasks);
    network = 0;
  };
}

launched_spawned : spawn_test_tasks list_queue clock idle_tasks ≡ some launched.world.executor
unfolding spawn_test_tasks spawn
launched_spawned = refl

body_of : TestCpu → Option (Option TestCpu)
body_of = loop_body list_queue count_interrupt board_machine (λ d. d) clock 3

abbrev waiting : TestCpu
waiting = or_else launched (or_else none (body_of launched))

waiting_returned : body_of launched ≡ some (some waiting)
unfolding body_of loop_body run poll_task poll_test_task Timer.new Timer.poll spawn_test_tasks spawn
waiting_returned = refl

reached_waiting : Reach list_queue count_interrupt board_machine (λ d. d) clock launched waiting
unfolding body_of
reached_waiting = next here (body 3 waiting_returned)

reached-AllAwake_example :
    AllAwake list_queue (λ q. q) 100_000 list_queue-IsBounded waiting.world.executor
    × ((rounds : ℕ) × (c'' : TestCpu) × (loop_body list_queue count_interrupt board_machine
            (λ d. d)
            clock
            rounds
            waiting
          ≡ some (some c'')))
    × ((now : ℕ)
        → (c'' : TestCpu) × (interrupted list_queue count_interrupt board_machine
              (λ d. d)
              clock
              now
              (vector_irq_base + timer_irq)
              waiting
            ≡ some c''))
reached-AllAwake_example =
    reached-AllAwake list_queue (λ q. q) 100_000 list_queue-IsBounded count_interrupt board_machine
      (λ d. d) clock idle_tasks launched waiting (omega arith) idle_tasks-IsNew launched_spawned
      refl reached_waiting

-- The second task has printed once, and awaits timer 1.
abbrev second_task : TestTask
second_task = record { period = 8_000_000_000; printed = 1; timer = some 1 }

second_slot : waiting.world.executor.futures 1 ≡ some second_task
unfolding body_of loop_body run poll_task poll_test_task Timer.new Timer.poll spawn_test_tasks spawn
second_slot = refl

prints_again_example :
    (c₁ c₂ : TestCpu) × (rounds : ℕ) × (f' : TestTask) × (interrupted list_queue count_interrupt
        board_machine
        (λ d. d)
        clock
        9_000_000_000
        (vector_irq_base + timer_irq)
        waiting
      ≡ some c₁)
    × (loop_body list_queue count_interrupt board_machine (λ d. d) clock rounds c₁ ≡ some (some c₂))
    × (c₂.world.executor.futures 1 ≡ some f')
    × (1 < f'.printed)
unfolding body_of loop_body run poll_task poll_test_task Timer.new Timer.poll spawn_test_tasks spawn
prints_again_example =
    prints_again list_queue (λ q. q) 100_000 list_queue-IsBounded count_interrupt board_machine
      (λ d. d) clock idle_tasks launched waiting (omega arith) idle_tasks-IsNew launched_spawned
      refl reached_waiting 9_000_000_000 1 second_task second_slot (λ k at. ground (arith, at))
