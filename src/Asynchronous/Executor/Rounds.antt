-- ===== src/Asynchronous/Executor/Rounds.antt =====
-- The number of rounds that `run` is given does not matter to what it returns.
use urchin.Prelude.{ℕ, zero, suc, ◌≡◌, arith, Option, some, Option-cases, inl, inr}
use urchin.Asynchronous.ArrayQueue.{ArrayQueue}
use urchin.Asynchronous.Executor.{Tasks, with_tasks, poll_task, run}

module _ {Q : Type 0} {F : Type 0} (queue : ArrayQueue Q ℕ)
    (poll : ℕ → F → Tasks Q F → Option (Option F × Tasks Q F)) where
  pub run_unique :
      (n m : ℕ) (e : Tasks Q F) (r r' : Option (Tasks Q F))
      → run queue poll n e ≡ some r
      → run queue poll m e ≡ some r'
      → r ≡ r'
  unfolding run
  run_unique zero m e r r' p p' = absurd (cc p)
  run_unique (suc n) zero e r r' p p' = absurd (cc p')
  run_unique (suc n) (suc m) e r r' p p' = elim (Option-cases (queue.pop e.timers.tasks)) [
    | inl empty ↦ ground (arith, empty, p, p')
    | inr ((task, q), popped) ↦ elim (Option-cases (poll_task queue poll task (with_tasks q e))) [
      | inl panics ↦ ground (arith, popped, panics, p, p')
      | inr (e₁, polled) ↦
          run_unique n m e₁ r r' (ground (arith, popped, polled, p))
            (ground (arith, popped, polled, p'))
    ]
  ]
