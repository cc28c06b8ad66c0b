-- ===== src/Kernel/MainLoop.antt =====
-- The end of `start_rust` of src/lib.rs: the loop that runs the executor with interrupts disabled and halts
-- with them enabled, and the interrupts that come meanwhile.
pub mod Safe
pub mod Prints
pub mod Serves
mod Tests
use urchin.Prelude.{ℕ, Option, none, some, true, ◌≡◌, ◌>>=◌}
use urchin.Arch.Io.{Machine}
use urchin.Asynchronous.ArrayQueue.{ArrayQueue}
use urchin.Asynchronous.Executor.{Tasks, run}
use urchin.Interrupt.{
  Cpu, enable_interrupt, disable_interrupt, interrupt_handler, timer_irq, timer_handler,
}
use urchin.Kernel.TestTask.{TestTask, poll_test_task, spawn_test_tasks}

-- The handlers of the kernel: that of the timer, and those of devices.
pub data Handler (D : Type 0) : Type 0 where
  timer : Handler D
  device : D → Handler D

abbrev pub irq_of : {D : Type 0} → (D → ℕ) → Handler D → ℕ
irq_of get_irq timer = timer_irq
irq_of get_irq (device d) = get_irq d

-- What the tasks act on, and what the handlers of the devices act on.
pub record World (Q : Type 0) (N : Type 0) : Type 0 where
  pub executor : Tasks Q TestTask
  pub network : N

module _ {Q : Type 0} {N : Type 0} {D : Type 0} (queue : ArrayQueue Q ℕ)
    (device_handler : D → N → Option N) where
  abbrev pub handle : ℕ → Handler D → World Q N → Option (World Q N)
  handle now timer w = timer_handler queue now w.executor.timers >>= λ t.
      some (record w { executor = record w.executor { timers = t } })
  handle now (device d) w = device_handler d w.network >>= λ n. some (record w { network = n })

  module _ {R : Type 0} (machine : Machine R) (get_irq : D → ℕ) (nowtime : ℕ → ℕ) where
    -- An interrupt at a time of the clock: the return from it enables interrupts as they were.
    pub interrupted : ℕ → ℕ → Cpu R (Handler D) (World Q N) → Option (Cpu R (Handler D) (World Q N))
    interrupted now intvec c =
        interrupt_handler machine (irq_of get_irq) (handle now) intvec c >>= λ c'.
        some (record c' { enabled = c.enabled })

    -- The body of the loop, up to `hlt`: `none` in front is a run that still goes on, behind it a panic.
    unfoldable pub loop_body :
        ℕ → Cpu R (Handler D) (World Q N) → Option (Option (Cpu R (Handler D) (World Q N)))
    loop_body rounds c =
        let c₁ = disable_interrupt c in
        run queue (poll_test_task queue nowtime) rounds c₁.world.executor >>= λ ran. some (
          ran >>= λ e.
          some (enable_interrupt (record c₁ { world = record c₁.world { executor = e } })))

    -- The loop and the interrupts, which come only where they are enabled.
    pub data Step : Cpu R (Handler D) (World Q N) → Cpu R (Handler D) (World Q N) → Type 0 where
      body :
          {c c' : Cpu R (Handler D) (World Q N)} (rounds : ℕ)
          → loop_body rounds c ≡ some (some c')
          → Step c c'
      interrupt :
          {c c' : Cpu R (Handler D) (World Q N)} (now intvec : ℕ)
          → c.enabled ≡ true
          → interrupted now intvec c ≡ some c'
          → Step c c'

    pub data Reach (c : Cpu R (Handler D) (World Q N))
        : Cpu R (Handler D) (World Q N) → Type 0 where
      here : Reach c c
      next : {c₁ c₂ : Cpu R (Handler D) (World Q N)} → Reach c c₁ → Step c₁ c₂ → Reach c c₂
