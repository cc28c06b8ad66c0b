-- ===== src/Kernel/MainLoop/Safe.antt =====
-- Every state of the main loop keeps the test tasks awake, and none of its steps panics.
use mathlib.Core.Path.{subst}
use urchin.Prelude.{
  ℕ, suc, ◌+◌, ◌≡◌, refl, arith, ap, sym, ◌∙◌, List, [], Option, some, true, length, Option-cases,
  inl, inr,
}
use urchin.Arch.Io.{Machine}
use urchin.Asynchronous.ArrayQueue.{ArrayQueue, IsBounded}
use urchin.Asynchronous.Timer.{Timers, check_timerfutures_from_interrupt}
use urchin.Asynchronous.Timer.Expiry.{AreChecked, check_timerfutures-AreChecked}
use urchin.Asynchronous.Executor.{Tasks, run}
use urchin.Asynchronous.Executor.Rounds.{run_unique}
use urchin.Arch.Apic.{ack_irq, vector_irq_base}
use urchin.Interrupt.{Cpu, get_handler, timer_irq, interrupt_handler}
use urchin.Interrupt.Kept.{
  interrupt_handler-IsHandled, interrupt_handler_lem, interrupt_handler-keeps,
}
use urchin.Kernel.TestTask.{TestTask, poll_test_task}
use urchin.Kernel.TestTask.Alive.{AllAwake, checked-AllAwake}
use urchin.Kernel.TestTask.Runs.{HaveRun, run-HaveRun}
use urchin.Kernel.MainLoop.{
  Handler, timer, device, World, irq_of, handle, interrupted, loop_body, Step, body, interrupt,
  Reach, here, next,
}

module _ {Q : Type 0} {N : Type 0} {D : Type 0} (queue : ArrayQueue Q ℕ) (items : Q → List ℕ)
    (capacity : ℕ) (laws : IsBounded queue items capacity) (device_handler : D → N → Option N) where
  -- The tasks are awake, and there are as many of them.
  pub record IsSound (tasks : ℕ) (e : Tasks Q TestTask) : Type 0 where
    pub awake : AllAwake queue items capacity laws e
    pub next_task : e.next_task ≡ tasks

  -- The handler of the timer does not panic.
  pub timer_returns :
      (now : ℕ) (e : Tasks Q TestTask)
      → AllAwake queue items capacity laws e
      → (t : Timers Q) × (check_timerfutures_from_interrupt queue now e.timers ≡ some t)
        × AreChecked queue items capacity laws now (items e.timers.registered) [] e.timers t
  timer_returns now e h =
      check_timerfutures-AreChecked queue items capacity laws now e.timers h.registered.distinct
        h.registered.fits h.room

  handle-IsSound :
      (tasks now : ℕ) (h : Handler D) (w w' : World Q N)
      → handle queue device_handler now h w ≡ some w'
      → IsSound tasks w.executor
      → IsSound tasks w'.executor
  handle-IsSound tasks now timer w w' handled s =
      let (t, checked, c) = timer_returns now w.executor s.awake in
      subst (IsSound tasks) (ground (arith, checked, handled)) (record {
        awake = checked-AllAwake queue items capacity laws now w.executor t c s.awake;
        next_task = s.next_task;
      })
  handle-IsSound tasks now (device d) w w' handled s =
      elim (Option-cases (device_handler d w.network)) [
        | inl panics ↦ absurd (ground (arith, panics, handled))
        | inr (n, done) ↦ subst (IsSound tasks) (ground (arith, done, handled)) s
      ]

  module _ {R : Type 0} (machine : Machine R) (get_irq : D → ℕ) (nowtime : ℕ → ℕ) where
    -- The run in the body of the loop returns.
    pub loop_body_lem :
        (c : Cpu R (Handler D) (World Q N))
        → AllAwake queue items capacity laws c.world.executor
        → (e : Tasks Q TestTask) × (loop_body queue device_handler machine get_irq nowtime
              (suc (length (items c.world.executor.timers.tasks)))
              c
            ≡ some (some (record c { enabled = true; world = record c.world { executor = e } })))
          × HaveRun queue items capacity laws nowtime
              (items c.world.executor.timers.tasks)
              c.world.executor
              e
    unfolding loop_body
    loop_body_lem c h =
        let (e, ran, r) =
          run-HaveRun queue items capacity laws nowtime (items c.world.executor.timers.tasks)
            c.world.executor refl h in
        (e, rw ran refl, r)

    loop_body_unique :
        (n m : ℕ) (c : Cpu R (Handler D) (World Q N))
        (r r' : Option (Cpu R (Handler D) (World Q N)))
        → loop_body queue device_handler machine get_irq nowtime n c ≡ some r
        → loop_body queue device_handler machine get_irq nowtime m c ≡ some r'
        → r ≡ r'
    unfolding loop_body
    loop_body_unique n m c r r' p p' =
        elim (Option-cases (run queue (poll_test_task queue nowtime) n c.world.executor)) [
          | inl runs ↦ absurd (ground (arith, runs, p))
          | inr (o, ran) ↦
              elim (Option-cases (run queue (poll_test_task queue nowtime) m c.world.executor)) [
                | inl runs ↦ absurd (ground (arith, runs, p'))
                | inr (o', ran') ↦
                    let same =
                      run_unique queue (poll_test_task queue nowtime) n m c.world.executor o o' ran
                        ran' in
                    ground (arith, ran, ran', same, p, p')
              ]
        ]

    -- The body of the loop gives the same, however many rounds its run is given.
    body_lem :
        (rounds : ℕ) (c c' : Cpu R (Handler D) (World Q N))
        → AllAwake queue items capacity laws c.world.executor
        → loop_body queue device_handler machine get_irq nowtime rounds c ≡ some (some c')
        → (HaveRun queue items capacity laws nowtime
            (items c.world.executor.timers.tasks)
            c.world.executor
            c'.world.executor)
          × (c'.irq_handlers ≡ c.irq_handlers)
    body_lem rounds c c' h returned =
        let (e, ran, r) = loop_body_lem c h in
        let c₁ = record c { enabled = true; world = record c.world { executor = e } } in
        let same : some c' ≡ some c₁ =
          loop_body_unique rounds (suc (length (items c.world.executor.timers.tasks))) c (some c')
            (some c₁) returned ran in
        let is : c₁ ≡ c' = cc in
        (
          subst
              (λ x.
                HaveRun queue items capacity laws nowtime (items c.world.executor.timers.tasks)
                  c.world.executor x.world.executor)
              is r,
          sym (ap (λ x. x.irq_handlers) is),
        )

    interrupt_lem :
        (now intvec : ℕ) (c c' : Cpu R (Handler D) (World Q N))
        → interrupted queue device_handler machine get_irq nowtime now intvec c ≡ some c'
        → (c₁ : Cpu R (Handler D) (World Q N)) × (interrupt_handler machine
              (irq_of get_irq)
              (handle queue device_handler now)
              intvec
              c
            ≡ some c₁)
          × (c' ≡ record c₁ { enabled = c.enabled })
    unfolding interrupted
    interrupt_lem now intvec c c' returned =
        elim (Option-cases
          (interrupt_handler machine (irq_of get_irq) (handle queue device_handler now) intvec c)) [
            | inl panics ↦ absurd (ground (arith, panics, returned))
            | inr (c₁, handled) ↦ (c₁, handled, ground (arith, handled, returned))
          ]

    -- The tasks are awake, and the line of the timer leads to its handler.
    pub record IsLooping (tasks : ℕ) (c : Cpu R (Handler D) (World Q N)) : Type 0 where
      pub sound : IsSound tasks c.world.executor
      pub timer_there : get_handler timer_irq c.irq_handlers ≡ some timer

    Step-IsLooping :
        {c c' : Cpu R (Handler D) (World Q N)} (tasks : ℕ)
        → Step queue device_handler machine get_irq nowtime c c'
        → IsLooping tasks c
        → IsLooping tasks c'
    Step-IsLooping {c} {c'} tasks (body rounds returned) s =
        let (r, table) = body_lem rounds c c' s.sound.awake returned in
        record {
          sound = record { awake = r.awake; next_task = r.next_task ∙ s.sound.next_task };
          timer_there = ap (get_handler timer_irq) table ∙ s.timer_there;
        }
    Step-IsLooping {c} {c'} tasks (interrupt now intvec enabled returned) s =
        let (c₁, handled, same) = interrupt_lem now intvec c c' returned in
        let kept =
          interrupt_handler-IsHandled machine (irq_of get_irq) (handle queue device_handler now)
            intvec c c₁ handled in
        record {
          sound =
              subst (λ x. IsSound tasks x.world.executor) (sym same)
                (interrupt_handler-keeps machine (irq_of get_irq) (handle queue device_handler now)
                  (λ w. IsSound tasks w.executor) (handle-IsSound tasks now) intvec c c₁ handled
                  s.sound);
          timer_there =
              ap (λ x. get_handler timer_irq x.irq_handlers) same
              ∙ ap (get_handler timer_irq) kept.table
              ∙ s.timer_there;
        }

    pub Reach-IsLooping :
        {c c' : Cpu R (Handler D) (World Q N)} (tasks : ℕ)
        → IsLooping tasks c
        → Reach queue device_handler machine get_irq nowtime c c'
        → IsLooping tasks c'
    Reach-IsLooping tasks s here = s
    Reach-IsLooping tasks s (next r step) = Step-IsLooping tasks step (Reach-IsLooping tasks s r)

    -- The interrupt of the timer does not panic.
    pub timer_interrupt_lem :
        (now : ℕ) (c : Cpu R (Handler D) (World Q N)) (tasks : ℕ)
        → IsLooping tasks c
        → (t : Timers Q) × (interrupted queue device_handler machine get_irq nowtime now
              (vector_irq_base + timer_irq)
              c
            ≡ some (record c {
              apic = ack_irq machine c.apic;
              world = record c.world { executor = record c.world.executor { timers = t } };
            }))
          × AreChecked queue items capacity laws now
              (items c.world.executor.timers.registered)
              []
              c.world.executor.timers
              t
    unfolding interrupted
    timer_interrupt_lem now c tasks s =
        let (t, checked, done) = timer_returns now c.world.executor s.sound.awake in
        (
          t,
          rw
              (interrupt_handler_lem machine (irq_of get_irq) (handle queue device_handler now)
                timer_irq c timer
                (record c.world { executor = record c.world.executor { timers = t } }) s.timer_there
                (rw checked refl))
              refl,
          done,
        )
