-- ===== src/Kernel/MainLoop/Prints.antt =====
-- The main loop from the start of the kernel.
use mathlib.Core.Path.{subst}
use urchin.Prelude.{
  ℕ, ◌+◌, ◌≤◌, ◌<◌, ◌≡◌, arith, ap, ◌∙◌, List, [], some, true, false, Option, Option-cases,
  Bool-cases, inl, inr,
}
use urchin.Arch.Io.{Machine}
use urchin.Arch.Apic.{ack_irq, vector_irq_base}
use urchin.Asynchronous.ArrayQueue.{ArrayQueue, IsBounded}
use urchin.Asynchronous.Timer.{Timers, is_expired}
use urchin.Asynchronous.Timer.States.{elem, wakers}
use urchin.Asynchronous.Timer.Expiry.{AreChecked}
use urchin.Asynchronous.Executor.{Tasks}
use urchin.Asynchronous.Executor.Wakes.{elem-append_left, elem-append_right, elem-wakers}
use urchin.Interrupt.{Cpu, get_handler, timer_irq}
use urchin.Kernel.TestTask.{TestTask, spawn_test_tasks}
use urchin.Kernel.TestTask.Poll.{IsDue}
use urchin.Kernel.TestTask.Alive.{AllAwake, checked-AllAwake}
use urchin.Kernel.TestTask.Started.{IsNew, spawn_test_tasks-AllAwake}
use urchin.Kernel.MainLoop.{Handler, timer, World, interrupted, loop_body, Reach}
use urchin.Kernel.MainLoop.Safe.{
  IsSound, IsLooping, Reach-IsLooping, loop_body_lem, timer_interrupt_lem,
}

module _ {Q : Type 0} {N : Type 0} {D : Type 0} {R : Type 0} (queue : ArrayQueue Q ℕ)
    (items : Q → List ℕ) (capacity : ℕ) (laws : IsBounded queue items capacity)
    (device_handler : D → N → Option N) (machine : Machine R) (get_irq : D → ℕ)
    (nowtime : ℕ → ℕ) where
  module _ (e : Tasks Q TestTask) (c c' : Cpu R (Handler D) (World Q N)) (room : 2 ≤ capacity)
      (new : IsNew queue items capacity laws nowtime e)
      (spawned : spawn_test_tasks queue nowtime e ≡ some c.world.executor)
      (timer_set : get_handler timer_irq c.irq_handlers ≡ some timer)
      (reached : Reach queue device_handler machine get_irq nowtime c c') where
    reached-IsLooping :
        IsLooping queue items capacity laws device_handler machine get_irq nowtime 2 c'
    reached-IsLooping =
        let (e', made, awake, two) =
          spawn_test_tasks-AllAwake queue items capacity laws nowtime e room new in
        let same : e' ≡ c.world.executor = cc (made, spawned) in
        Reach-IsLooping queue items capacity laws device_handler machine get_irq nowtime 2
          (record {
            sound =
                subst (IsSound queue items capacity laws device_handler 2) same
                  (record { awake = awake; next_task = two });
            timer_there = timer_set;
          })
          reached

    -- From the state in which the test tasks were spawned on a new executor and the handler of the timer was
    -- set, whatever runs of the loop's body and interrupts follow: each task is queued or awaits a registered
    -- timer that will wake it, the body of the loop returns, and an interrupt of the timer does not panic.
    pub reached-AllAwake :
        AllAwake queue items capacity laws c'.world.executor
        × ((rounds : ℕ) × (c'' : Cpu R (Handler D) (World Q N)) × (loop_body queue device_handler
                machine get_irq nowtime rounds c'
              ≡ some (some c'')))
        × ((now : ℕ)
            → (c'' : Cpu R (Handler D) (World Q N)) × (interrupted queue device_handler machine
                  get_irq nowtime now
                  (vector_irq_base + timer_irq)
                  c'
                ≡ some c''))
    reached-AllAwake =
        let s = reached-IsLooping in
        let (e'', ran, r) =
          loop_body_lem queue items capacity laws device_handler machine get_irq nowtime c'
            s.sound.awake in
        (
          s.sound.awake,
          (_, _, ran),
          λ now.
              let (t, returned, done) =
                timer_interrupt_lem queue items capacity laws device_handler machine get_irq nowtime
                  now c' 2 s in
              (_, returned),
        )

    module _ (now i : ℕ) (f : TestTask) (slot : c'.world.executor.futures i ≡ some f)
        (late : (k : ℕ)
          → f.timer ≡ some k
          → is_expired now (c'.world.executor.timers.states k) ≡ true) where
      abbrev before : Timers Q
      before = c'.world.executor.timers

      awaited-registered :
          (k : ℕ)
          → f.timer ≡ some k
          → (before.states k).completed ≡ false
          → elem k (items before.registered) ≡ true
      awaited-registered k at waits =
          let a = reached-IsLooping.sound.awake in
          a.registered.complete k (a.below i k f slot at) waits

      module _ (t : Timers Q)
          (checked : AreChecked queue items capacity laws now
            (items before.registered)
            []
            before
            t) where
        queued_lem : elem i (items t.tasks) ≡ true
        queued_lem =
            ap (elem i) checked.tasks ∙ elim (reached-IsLooping.sound.awake.awake i f slot) [
              | inl queued ↦
                  elem-append_left i (items before.tasks)
                    (wakers now before.states (items before.registered)) queued
              | inr (k, at, waits, wakes) ↦
                  elem-append_right i (items before.tasks)
                    (wakers now before.states (items before.registered))
                    (elem-wakers now k i before.states (items before.registered) (late k at) wakes
                      (awaited-registered k at waits))
            ]

        due_lem :
            IsDue queue items capacity laws nowtime f (record c'.world.executor { timers = t })
        due_lem = elim (Option-cases f.timer) [
          | inl gone ↦ inl gone
          | inr (k, at) ↦ inr (
            k,
            at,
            ap (λ s. s.completed) (checked.states k)
                ∙ elim (Bool-cases (before.states k).completed) [
                  | inl done ↦ ground (arith, done)
                  | inr waits ↦ ground (arith, awaited-registered k at waits, late k at)
                ],
          )
        ]

      -- From the state in which the test tasks were spawned on a new executor and the handler of the timer
      -- was set, after whatever runs of the loop's body and interrupts: an interrupt of the timer at a time
      -- after that for which a task waits, and the next run of the loop's body, make the task print again;
      -- neither panics.
      pub prints_again :
          (c₁ c₂ : Cpu R (Handler D) (World Q N)) × (rounds : ℕ) × (f' : TestTask) × (interrupted
              queue device_handler machine get_irq nowtime now
              (vector_irq_base + timer_irq)
              c'
            ≡ some c₁)
          × (loop_body queue device_handler machine get_irq nowtime rounds c₁ ≡ some (some c₂))
          × (c₂.world.executor.futures i ≡ some f')
          × (f.printed < f'.printed)
      prints_again =
          let s = reached-IsLooping in
          let (t, returned, checked) =
            timer_interrupt_lem queue items capacity laws device_handler machine get_irq nowtime now
              c' 2 s in
          let c₁ : Cpu R (Handler D) (World Q N) = record c' {
            apic = ack_irq machine c'.apic;
            world = record c'.world { executor = record c'.world.executor { timers = t } };
          } in
          let (e₂, ran, r) =
            loop_body_lem queue items capacity laws device_handler machine get_irq nowtime c₁ (
              checked-AllAwake queue items capacity laws now c'.world.executor t checked
                s.sound.awake) in
          let (f', at, more, due_more) = r.printed i f slot in
          (_, _, _, f', returned, ran, at, due_more (queued_lem t checked) (due_lem t checked))
