-- ===== src/Asynchronous/Executor/Drain.antt =====
-- `run` ends: it polls the tasks that are queued, and no other.
use urchin.Prelude.{
  ℕ, suc, ◌≡◌, refl, ◌∙◌, List, [], ◌∷◌, Option, none, some, length, Option-cases, inl, inr,
}
use urchin.Asynchronous.ArrayQueue.{ArrayQueue, IsBounded}
use urchin.Asynchronous.Timer.{store}
use urchin.Asynchronous.Executor.{Tasks, with_tasks, poll_task, run}

module _ {Q : Type 0} {F : Type 0} (queue : ArrayQueue Q ℕ) (items : Q → List ℕ) (capacity : ℕ)
    (laws : IsBounded queue items capacity)
    (poll : ℕ → F → Tasks Q F → Option (Option F × Tasks Q F)) where
  -- The tasks of a list are taken from the queue and polled, in order.
  pub data Polled : List ℕ → Tasks Q F → Tasks Q F → Type 0 where
    none_left : (e : Tasks Q F) → Polled [] e e
    next :
        {task : ℕ} {rest : List ℕ} {q : Q} {e e₁ e₂ : Tasks Q F}
        → queue.pop e.timers.tasks ≡ some (task, q)
        → poll_task queue poll task (with_tasks q e) ≡ some e₁
        → Polled rest e₁ e₂
        → Polled (task ∷ rest) e e₂

  -- A future that is polled does not panic, and queues no task.
  abbrev pub IsQuiet : Type 0
  IsQuiet =
      (task : ℕ) (future : F) (e : Tasks Q F)
      → (after : Option F) × (e' : Tasks Q F) × (poll task future e ≡ some (after, e'))
        × (items e'.timers.tasks ≡ items e.timers.tasks)

  module _ (quiet : IsQuiet) where
    poll_task_lem :
        (task : ℕ) (e : Tasks Q F)
        → (e' : Tasks Q F) × (poll_task queue poll task e ≡ some e')
          × (items e'.timers.tasks ≡ items e.timers.tasks)
    unfolding poll_task
    poll_task_lem task e = elim (Option-cases (e.futures task)) [
      | inl gone ↦ (e, rw (gone, poll_task) refl, refl)
      | inr (future, there) ↦
          let (after, e', polled, same) =
            quiet task future (record e { futures = store task none e.futures }) in
          elim (Option-cases after) [
            | inl done ↦ (e', rw (there, poll_task, polled, done) refl, same)
            | inr (future', pending) ↦ (
              record e' { futures = store task (some future') e'.futures },
              rw (there, poll_task, polled, pending) refl,
              same,
            )
          ]
    ]

    -- Where the futures queue no task, `run` returns: as many rounds as there are tasks in the queue, and
    -- one to find it empty, poll each of the tasks in order, and leave the queue empty.
    pub run-Polled :
        (tasks : List ℕ) (e : Tasks Q F)
        → items e.timers.tasks ≡ tasks
        → (e' : Tasks Q F) × (run queue poll (suc (length tasks)) e ≡ some (some e'))
          × Polled tasks e e'
          × (items e'.timers.tasks ≡ [])
    unfolding run
    run-Polled [] e empty =
        (e, rw (laws.pop_empty e.timers.tasks empty, run) refl, none_left e, empty)
    run-Polled (task ∷ rest) e filled =
        let (q, popped, behind) = laws.pop_front e.timers.tasks task rest filled in
        let (e₁, polled, same) = poll_task_lem task (with_tasks q e) in
        let (e₂, ran, all, left) = run-Polled rest e₁ (same ∙ behind) in
        (e₂, rw (popped, run, polled) ran, next popped polled all, left)
