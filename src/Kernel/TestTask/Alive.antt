-- ===== src/Kernel/TestTask/Alive.antt =====
-- What stays true of the test tasks: each is queued, or awaits a timer that will wake it.
use urchin.Prelude.{
  ℕ, ◌+◌, ◌≤◌, ◌<◌, ◌≡◌, arith, ap, ◌∙◌, List, [], ◌∷◌, some, true, false, length, length-append,
  filter, Bool-cases, Option-cases, inl, inr, ◌⊎◌,
}
use urchin.Asynchronous.ArrayQueue.{ArrayQueue, IsBounded}
use urchin.Asynchronous.Timer.{SharedState, Timers, is_expired}
use urchin.Asynchronous.Timer.States.{elem, wakers, is_pending}
use urchin.Asynchronous.Timer.Expiry.{AreChecked}
use urchin.Asynchronous.Timer.Registered.{AreRegistered, check-AreRegistered}
use urchin.Asynchronous.Executor.{Tasks}
use urchin.Asynchronous.Executor.Wakes.{elem-append_left, elem-append_right, elem-wakers}
use urchin.Kernel.TestTask.{TestTask}

module _ {Q : Type 0} (queue : ArrayQueue Q ℕ) (items : Q → List ℕ) (capacity : ℕ)
    (laws : IsBounded queue items capacity) where
  -- The task is queued, or awaits a timer that is not completed and the waker of which is the task.
  abbrev pub IsAwake : List ℕ → Tasks Q TestTask → ℕ → TestTask → Type 0
  IsAwake tasks e i f =
      (elem i tasks ≡ true)
      ⊎ ((k : ℕ) × (f.timer ≡ some k)
          × ((e.timers.states k).completed ≡ false)
          × ((e.timers.states k).waker ≡ some i))

  -- With `tasks` to be polled.
  pub record AreAwake (tasks : List ℕ) (e : Tasks Q TestTask) : Type 0 where
    pub registered : AreRegistered queue items capacity laws e.timers
    pub room : length tasks + length (items e.timers.registered) ≤ capacity
    pub below :
        (i k : ℕ) (f : TestTask) → e.futures i ≡ some f → f.timer ≡ some k → k < e.timers.next_state
    pub own :
        (i j k : ℕ) (f g : TestTask)
        → e.futures i ≡ some f
        → e.futures j ≡ some g
        → f.timer ≡ some k
        → g.timer ≡ some k
        → i ≡ j
    pub there : (i : ℕ) → i < e.next_task → (f : TestTask) × (e.futures i ≡ some f)
    pub awake : (i : ℕ) (f : TestTask) → e.futures i ≡ some f → IsAwake tasks e i f

  -- The invariant between the runs of the tasks.
  abbrev pub AllAwake : Tasks Q TestTask → Type 0
  AllAwake e = AreAwake (items e.timers.tasks) e

  length-wakers :
      (nowtime : ℕ) (states : ℕ → SharedState) (is : List ℕ)
      → length (wakers nowtime states is) + length (filter (is_pending nowtime states) is)
        ≤ length is
  length-wakers nowtime states [] = omega arith
  length-wakers nowtime states (i ∷ is) = elim (Bool-cases (is_expired nowtime (states i))) [
    | inl e ↦ elim (Option-cases (states i).waker) [
      | inl e' ↦ rw (e, e') (omega (arith, length-wakers nowtime states is))
      | inr (task, e') ↦ rw (e, e') (omega (arith, length-wakers nowtime states is))
    ]
    | inr e ↦ rw e (omega (arith, length-wakers nowtime states is))
  ]

  module _ (nowtime : ℕ) (e : Tasks Q TestTask) (w : Timers Q)
      (c : AreChecked queue items capacity laws nowtime (items e.timers.registered) [] e.timers w)
      (h : AllAwake e) where
    checked-IsAwake :
        (i : ℕ) (f : TestTask)
        → IsAwake (items e.timers.tasks) e i f
        → e.futures i ≡ some f
        → IsAwake (items w.tasks) (record e { timers = w }) i f
    checked-IsAwake i f (inl queued) slot = inl (
        ap (elem i) c.tasks
        ∙ elem-append_left i (items e.timers.tasks)
            (wakers nowtime e.timers.states (items e.timers.registered)) queued)
    checked-IsAwake i f (inr (k, at, waits, wakes)) slot =
        elim (Bool-cases (is_expired nowtime (e.timers.states k))) [
          | inl late ↦ inl (
              ap (elem i) c.tasks
              ∙ elem-append_right i (items e.timers.tasks)
                  (wakers nowtime e.timers.states (items e.timers.registered))
                  (elem-wakers nowtime k i e.timers.states (items e.timers.registered) late wakes
                    (h.registered.complete k (h.below i k f slot at) waits)))
          | inr early ↦
              let same : w.states k ≡ e.timers.states k = c.states k ∙ ground (arith, early) in
              inr (k, at, ap (λ s. s.completed) same ∙ waits, ap (λ s. s.waker) same ∙ wakes)
        ]

    -- An interrupt of the timer keeps the tasks awake.
    pub checked-AllAwake : AllAwake (record e { timers = w })
    checked-AllAwake = record {
      registered = check-AreRegistered queue items capacity laws nowtime e.timers w h.registered c;
      room = omega (
        arith,
        h.room,
        ap length c.tasks,
        length-append (items e.timers.tasks)
            (wakers nowtime e.timers.states (items e.timers.registered)),
        ap length c.registered,
        length-wakers nowtime e.timers.states (items e.timers.registered),
      );
      below = λ i k f slot at. omega (arith, h.below i k f slot at, c.next_state);
      own = h.own;
      there = h.there;
      awake = λ i f slot. checked-IsAwake i f (h.awake i f slot) slot;
    }
