-- ===== src/Kernel/TestTask/Runs.antt =====
-- A run of the executor ends, and each queued task that is due prints.
use native.Mathlib.Decide.{ℕ_discrete}
use urchin.Prelude.{
  ℕ, suc, ◌≤◌, ◌<◌, ◌≡◌, ◌≢◌, refl, arith, ap, sym, ◌∙◌, List, [], ◌∷◌, none, some, true, length,
  Option-cases, inl, inr,
}
use urchin.Asynchronous.ArrayQueue.{ArrayQueue, IsBounded}
use urchin.Asynchronous.Timer.{store}
use urchin.Asynchronous.Timer.States.{elem}
use urchin.Asynchronous.Timer.Registered.{AreRegistered}
use urchin.Asynchronous.Executor.{Tasks, with_tasks, poll_task, run}
use urchin.Kernel.TestTask.{TestTask, poll_test_task}
use urchin.Kernel.TestTask.Poll.{IsDue, poll-IsResumed}
use urchin.Kernel.TestTask.Alive.{AreAwake, AllAwake}
use urchin.Kernel.TestTask.Resumed.{resumed-AreAwake, its_print, others_stay}

module _ {Q : Type 0} (queue : ArrayQueue Q ℕ) (items : Q → List ℕ) (capacity : ℕ)
    (laws : IsBounded queue items capacity) (nowtime : ℕ → ℕ) where
  abbrev Due : TestTask → Tasks Q TestTask → Type 0
  Due f e = IsDue queue items capacity laws nowtime f e

  -- The i-th task was polled.
  record IsStepped (i : ℕ) (rest : List ℕ) (e e' : Tasks Q TestTask) : Type 0 where
    pub awake : AreAwake queue items capacity laws rest e'
    pub left : items e'.timers.tasks ≡ rest
    pub next_task : e'.next_task ≡ e.next_task
    pub its :
        (f : TestTask)
        → e.futures i ≡ some f
        → (f' : TestTask) × (e'.futures i ≡ some f')
          × (f.printed ≤ f'.printed)
          × (Due f e → f.printed < f'.printed)
    pub others :
        (j : ℕ) (g : TestTask)
        → j ≢ i
        → e.futures j ≡ some g
        → (e'.futures j ≡ some g) × (Due g e → Due g e')

  queue_left-AreRegistered :
      (q : Q) (e : Tasks Q TestTask)
      → AreRegistered queue items capacity laws e.timers
      → AreRegistered queue items capacity laws (with_tasks q e).timers
  queue_left-AreRegistered q e h = record {
    distinct = h.distinct;
    below = h.below;
    fits = h.fits;
    complete = h.complete;
  }

  gone_lem :
      (i : ℕ) (rest : List ℕ) (q : Q) (e : Tasks Q TestTask)
      → e.futures i ≡ none
      → items q ≡ rest
      → AreAwake queue items capacity laws (i ∷ rest) e
      → IsStepped i rest e (with_tasks q e)
  gone_lem i rest q e gone behind h = record {
    awake = record {
      registered = queue_left-AreRegistered q e h.registered;
      room = omega (arith, h.room);
      below = h.below;
      own = h.own;
      there = h.there;
      awake = λ j g at. elim (h.awake j g at) [
        | inl queued ↦
            let ne : j ≢ i = λ same. cc (gone, at, same) in inl (ground (arith, queued, ne))
        | inr waits ↦ inr waits
      ];
    };
    left = behind;
    next_task = refl;
    its = λ f at. absurd (cc (gone, at));
    others = λ j g ne at. (at, λ d. d);
  }

  step_lem :
      (i : ℕ) (rest : List ℕ) (q : Q) (e : Tasks Q TestTask)
      → items q ≡ rest
      → AreAwake queue items capacity laws (i ∷ rest) e
      → (e' : Tasks Q TestTask) × (poll_task queue (poll_test_task queue nowtime) i (with_tasks q e)
          ≡ some e')
        × IsStepped i rest e e'
  unfolding poll_task
  step_lem i rest q e behind h = elim (Option-cases (e.futures i)) [
    | inl gone ↦ (with_tasks q e, rw (gone, poll_task) refl, gone_lem i rest q e gone behind h)
    | inr (f, slot) ↦
        let e₂ : Tasks Q TestTask = record (with_tasks q e) { futures = store i none e.futures } in
        let (f', e₃, polled, r) =
          poll-IsResumed queue items capacity laws nowtime i f e₂
            (queue_left-AreRegistered q e h.registered) (omega (arith, h.room))
            (λ k at. h.below i k f slot at) in
        (
          record e₃ { futures = store i (some f') e₃.futures },
          rw (slot, poll_task, polled) refl,
          record {
            awake =
                resumed-AreAwake queue items capacity laws nowtime i rest f f' e e₂ e₃ refl refl
                  refl refl slot r h refl;
            left = ap items r.tasks ∙ behind;
            next_task = r.next_task;
            its =
                its_print queue items capacity laws nowtime i rest f f' e e₂ e₃ refl refl refl refl
                  slot r h;
            others =
                others_stay queue items capacity laws nowtime i rest f f' e e₂ e₃ refl refl refl
                  refl slot r h;
          },
        )
  ]

  -- Once the tasks of a list were polled: each has printed as often as before at least, and more often
  -- where it was in the list and due.
  pub record HaveRun (tasks : List ℕ) (e e' : Tasks Q TestTask) : Type 0 where
    pub awake : AllAwake queue items capacity laws e'
    pub none_left : items e'.timers.tasks ≡ []
    pub next_task : e'.next_task ≡ e.next_task
    pub printed :
        (j : ℕ) (f : TestTask)
        → e.futures j ≡ some f
        → (f' : TestTask) × (e'.futures j ≡ some f')
          × (f.printed ≤ f'.printed)
          × (elem j tasks ≡ true → Due f e → f.printed < f'.printed)

  module _ (i : ℕ) (rest : List ℕ) (e e₁ e₂ : Tasks Q TestTask) (s : IsStepped i rest e e₁)
      (r : HaveRun rest e₁ e₂) where
    both_print :
        (j : ℕ) (f : TestTask)
        → e.futures j ≡ some f
        → (f' : TestTask) × (e₂.futures j ≡ some f')
          × (f.printed ≤ f'.printed)
          × (elem j (i ∷ rest) ≡ true → Due f e → f.printed < f'.printed)
    both_print j f at = elim (ℕ_discrete j i) [
      | yes same ↦
          let (f₁, at₁, le₁, due₁) = s.its f (ap (λ x. e.futures x) (sym same) ∙ at) in
          let (f₂, at₂, le₂, due₂) = r.printed j f₁ (ap (λ x. e₁.futures x) same ∙ at₁) in
          (f₂, at₂, omega arith, λ there due. omega (arith, due₁ due))
      | no ne ↦
          let (at₁, keeps) = s.others j f ne at in
          let (f₂, at₂, le₂, due₂) = r.printed j f at₁ in
          (f₂, at₂, le₂, λ there due. due₂ (ground (arith, there, ne)) (keeps due))
    ]

    both-HaveRun : HaveRun (i ∷ rest) e e₂
    both-HaveRun = record {
      awake = r.awake;
      none_left = r.none_left;
      next_task = r.next_task ∙ s.next_task;
      printed = both_print;
    }

  -- A round for each task in the queue, and one that finds it empty.
  pub run-HaveRun :
      (tasks : List ℕ) (e : Tasks Q TestTask)
      → items e.timers.tasks ≡ tasks
      → AreAwake queue items capacity laws tasks e
      → (e' : Tasks Q TestTask) × (run queue (poll_test_task queue nowtime) (suc (length tasks)) e
          ≡ some (some e'))
        × HaveRun tasks e e'
  unfolding run
  run-HaveRun [] e empty h = (
    e,
    rw (laws.pop_empty e.timers.tasks empty, run) refl,
    record {
      awake = rw empty h;
      none_left = empty;
      next_task = refl;
      printed = λ j f at. (f, at, omega arith, λ there. absurd (ground (arith, there)));
    },
  )
  run-HaveRun (i ∷ rest) e filled h =
      let (q, popped, behind) = laws.pop_front e.timers.tasks i rest filled in
      let (e₁, polled, s) = step_lem i rest q e behind h in
      let (e₂, ran, r) = run-HaveRun rest e₁ s.left s.awake in
      (e₂, rw (popped, run, polled) ran, both-HaveRun i rest e e₁ e₂ s r)
