-- ===== src/Kernel/TestTask/Started.antt =====
-- The test tasks are awake once they are spawned.
use native.Mathlib.Decide.{ℕ_discrete}
use urchin.Prelude.{
  ℕ, suc, ◌+◌, ◌≤◌, ◌<◌, ◌≡◌, ◌≢◌, refl, arith, ap, ◌∙◌, List, [], ◌∷◌, ◌++◌, none, some, length,
  length-append, inl, inr,
}
use urchin.Asynchronous.ArrayQueue.{ArrayQueue, IsBounded}
use urchin.Asynchronous.Timer.{store}
use urchin.Asynchronous.Timer.States.{elem}
use urchin.Asynchronous.Timer.Registered.{elem-append_one}
use urchin.Asynchronous.Executor.{Tasks, with_tasks, spawn}
use urchin.Asynchronous.Executor.Wakes.{elem-append_left}
use urchin.Kernel.TestTask.{TestTask, test_task, poll_test_task, spawn_test_tasks}
use urchin.Kernel.TestTask.Alive.{IsAwake, AllAwake}

module _ {Q : Type 0} (queue : ArrayQueue Q ℕ) (items : Q → List ℕ) (capacity : ℕ)
    (laws : IsBounded queue items capacity) (nowtime : ℕ → ℕ) where
  -- A new executor, with no timer registered.
  pub record IsNew (e : Tasks Q TestTask) : Type 0 where
    pub no_task : items e.timers.tasks ≡ []
    pub no_timer : items e.timers.registered ≡ []
    pub no_future : (i : ℕ) → e.futures i ≡ none
    pub next_task : e.next_task ≡ 0
    pub next_state : e.timers.next_state ≡ 0

  IsNew-AllAwake : (e : Tasks Q TestTask) → IsNew e → AllAwake queue items capacity laws e
  IsNew-AllAwake e h = record {
    registered = record {
      distinct = rw (h.no_timer) tt;
      below = rw (h.no_timer) tt;
      fits = omega (arith, ap length h.no_timer);
      complete = λ i lt waits. absurd (omega (arith, lt, h.next_state));
    };
    room = omega (arith, ap length h.no_timer, ap length h.no_task);
    below = λ i k f slot. absurd (cc (h.no_future i, slot));
    own = λ i j k f g slot. absurd (cc (h.no_future i, slot));
    there = λ i lt. absurd (omega (arith, lt, h.next_task));
    awake = λ i f slot. absurd (cc (h.no_future i, slot));
  }

  module _ (period : ℕ) (q : Q) (e : Tasks Q TestTask) where
    abbrev spawned : Tasks Q TestTask
    spawned = record (with_tasks q e) {
      futures = store e.next_task (some (test_task period)) e.futures;
      next_task = suc e.next_task;
    }

    module _ (behind : items q ≡ items e.timers.tasks ++ (e.next_task ∷ []))
        (room : length (items e.timers.tasks) + length (items e.timers.registered) < capacity)
        (h : AllAwake queue items capacity laws e) where
      abbrev next : ℕ
      next = e.next_task

      old_future :
          (i : ℕ) (f : TestTask) → i ≢ next → spawned.futures i ≡ some f → e.futures i ≡ some f
      old_future i f ne at = ground (arith, at, ne)

      -- The new task awaits nothing yet.
      awaits_old :
          (i k : ℕ) (f : TestTask) → spawned.futures i ≡ some f → f.timer ≡ some k → i ≢ next
      awaits_old i k f at awaits same = ground (arith, at, awaits, same)

      spawned-IsAwake :
          (i : ℕ) (f : TestTask)
          → spawned.futures i ≡ some f
          → IsAwake queue items capacity laws (items q) spawned i f
      spawned-IsAwake i f at = elim (ℕ_discrete i next) [
        | yes same ↦ inl (
            ap (elem i) behind
            ∙ elem-append_one next i (items e.timers.tasks)
            ∙ ground (arith, same))
        | no ne ↦ elim (h.awake i f (old_future i f ne at)) [
          | inl queued ↦
              inl
                (ap (elem i) behind ∙ elem-append_left i (items e.timers.tasks) (next ∷ []) queued)
          | inr waits ↦ inr waits
        ]
      ]

      spawned-AllAwake : AllAwake queue items capacity laws spawned
      spawned-AllAwake = record {
        registered = record {
          distinct = h.registered.distinct;
          below = h.registered.below;
          fits = h.registered.fits;
          complete = h.registered.complete;
        };
        room =
            omega (arith, room, ap length behind, length-append (items e.timers.tasks) (next ∷ []));
        below = λ i k f at awaits.
            h.below i k f (old_future i f (awaits_old i k f at awaits) at) awaits;
        own = λ i j k f g at at' awaits awaits'.
            h.own i j k f g (old_future i f (awaits_old i k f at awaits) at)
              (old_future j g (awaits_old j k g at' awaits') at') awaits awaits';
        there = λ i lt. elim (ℕ_discrete i next) [
          | yes same ↦ (test_task period, ground (arith, same))
          | no ne ↦ let (f, at) = h.there i (omega arith) in (f, ground (arith, ne, at))
        ];
        awake = spawned-IsAwake;
      }

  spawn_lem :
      (period : ℕ) (e : Tasks Q TestTask)
      → length (items e.timers.tasks) + length (items e.timers.registered) < capacity
      → AllAwake queue items capacity laws e
      → (q : Q) × (spawn queue (poll_test_task queue nowtime) (test_task period) e
          ≡ some (spawned period q e))
        × AllAwake queue items capacity laws (spawned period q e)
        × (items q ≡ items e.timers.tasks ++ (e.next_task ∷ []))
  unfolding spawn
  spawn_lem period e room h =
      let (q, pushed, behind) = laws.takes e.timers.tasks e.next_task (omega arith) in
      (q, rw pushed refl, spawned-AllAwake period q e behind room h, behind)

  pub spawn_test_tasks-AllAwake :
      (e : Tasks Q TestTask)
      → 2 ≤ capacity
      → IsNew e
      → (e' : Tasks Q TestTask) × (spawn_test_tasks queue nowtime e ≡ some e')
        × AllAwake queue items capacity laws e'
        × (e'.next_task ≡ 2)
  unfolding spawn_test_tasks
  spawn_test_tasks-AllAwake e room new =
      let (q, first, awake, behind) =
        spawn_lem 5_000_000_000 e (omega (arith, ap length new.no_timer, ap length new.no_task))
          (IsNew-AllAwake e new) in
      let e₁ = spawned 5_000_000_000 q e in
      let (q', second, awake', behind') =
        spawn_lem 8_000_000_000 e₁
          (omega (
            arith,
            ap length new.no_timer,
            ap length new.no_task,
            ap length behind,
            length-append (items e.timers.tasks) (e.next_task ∷ []),
          ))
          awake in
      (spawned 8_000_000_000 q' e₁, rw first second, awake', omega (arith, new.next_task))
