-- ===== src/Kernel/TestTask/Poll.antt =====
-- What a poll of a test task does.
use mathlib.Core.Path.{subst}
use urchin.Prelude.{
  ℕ, suc, ◌≤◌, ◌<◌, ◌≡◌, ◌≢◌, refl, arith, ap, sym, ◌∙◌, List, [], ◌∷◌, none, some, true, false,
  length, length-append, Bool-cases, Option-cases, inl, inr, ◌⊎◌,
}
use urchin.Asynchronous.ArrayQueue.{ArrayQueue, IsBounded}
use urchin.Asynchronous.Timer
use urchin.Asynchronous.Timer.{SharedState, Timers, store}
use urchin.Asynchronous.Timer.Registered.{
  AreRegistered, new_state, added, new_lem, new-AreRegistered,
}
use urchin.Asynchronous.Executor.{Tasks}
use urchin.Kernel.TestTask.{TestTask, resume, poll_test_task}

abbrev with_waker : ℕ → SharedState → SharedState
with_waker task s = record s { waker = some task }

module _ {Q : Type 0} (queue : ArrayQueue Q ℕ) (items : Q → List ℕ) (capacity : ℕ)
    (laws : IsBounded queue items capacity) (nowtime : ℕ → ℕ) where
  -- The task goes on once its timer is completed.
  abbrev pub IsDue : TestTask → Tasks Q TestTask → Type 0
  IsDue f e =
      (f.timer ≡ none) ⊎ ((k : ℕ) × (f.timer ≡ some k) × ((e.timers.states k).completed ≡ true))

  -- After a poll the task awaits a registered timer, the waker of which is the task; what belongs to the
  -- others is as it was.
  pub record IsResumed (task : ℕ) (f f' : TestTask) (e e' : Tasks Q TestTask) : Type 0 where
    pub timer : ℕ
    pub awaited : f'.timer ≡ some timer
    pub own : (f.timer ≡ some timer) ⊎ (e.timers.next_state ≤ timer)
    pub below : timer < e'.timers.next_state
    pub pending : (e'.timers.states timer).completed ≡ false
    pub waker : (e'.timers.states timer).waker ≡ some task
    pub others : (k : ℕ) → k ≢ timer → e'.timers.states k ≡ e.timers.states k
    pub registered : AreRegistered queue items capacity laws e'.timers
    pub grows : e.timers.next_state ≤ e'.timers.next_state
    pub room : length (items e'.timers.registered) ≤ suc (length (items e.timers.registered))
    pub tasks : e'.timers.tasks ≡ e.timers.tasks
    pub futures : e'.futures ≡ e.futures
    pub next_task : e'.next_task ≡ e.next_task
    pub prints : f.printed ≤ f'.printed
    pub due_prints : IsDue f e → f.printed < f'.printed

  -- The wakers do not matter to the queue of the timers.
  rewoken-AreRegistered :
      (w : Timers Q) (states : ℕ → SharedState)
      → ((i : ℕ) → (states i).completed ≡ (w.states i).completed)
      → AreRegistered queue items capacity laws w
      → AreRegistered queue items capacity laws (record w { states = states })
  rewoken-AreRegistered w states same h = record {
    distinct = h.distinct;
    below = h.below;
    fits = h.fits;
    complete = λ i lt e. h.complete i lt (sym (same i) ∙ e);
  }

  module _ (task : ℕ) (f : TestTask) (e : Tasks Q TestTask)
      (h : AreRegistered queue items capacity laws e.timers) where
    abbrev awaiting : ℕ → Tasks Q TestTask
    awaiting k = record e {
      timers = record e.timers {
        states = store k (with_waker task (e.timers.states k)) e.timers.states;
      };
    }

    poll_pending :
        (k : ℕ)
        → f.timer ≡ some k
        → k < e.timers.next_state
        → (e.timers.states k).completed ≡ false
        → (poll_test_task queue nowtime task f e ≡ some (some f, awaiting k))
          × IsResumed task f f e (awaiting k)
    unfolding poll_test_task resume Timer.poll
    poll_pending k at small waits = (
      ground (arith, at, waits),
      record {
        timer = k;
        awaited = at;
        own = inl at;
        below = small;
        pending = ground (arith, waits);
        waker = ground arith;
        others = λ j ne. ground (arith, ne);
        registered =
            rewoken-AreRegistered e.timers
              (store k (with_waker task (e.timers.states k)) e.timers.states) (λ i. ground arith) h;
        grows = omega arith;
        room = omega arith;
        tasks = refl;
        futures = refl;
        next_task = refl;
        prints = omega arith;
        due_prints = not_due;
      },
    )
      where
        not_due : IsDue f e → f.printed < f.printed
        not_due (inl gone) = absurd (cc (at, gone))
        not_due (inr (j, at_j, done)) = absurd (ground (arith, at, at_j, done, waits))

    abbrev started : Q → Tasks Q TestTask
    started q = record e {
      timers = record e.timers {
        states =
            store e.timers.next_state
              (with_waker task (new_state (nowtime e.timers.next_state) f.period))
              (store e.timers.next_state (new_state (nowtime e.timers.next_state) f.period)
                e.timers.states);
        next_state = suc e.timers.next_state;
        registered = q;
      };
    }

    abbrev next_round : TestTask
    next_round = record f { printed = suc f.printed; timer = some e.timers.next_state }

    poll_due-eq :
        (q : Q)
        → queue.push e.timers.next_state e.timers.registered ≡ some q
        → IsDue f e
        → poll_test_task queue nowtime task f e ≡ some (some next_round, started q)
    unfolding poll_test_task resume Timer.poll
    poll_due-eq q pushed (inl at) =
        ground (arith, new_lem queue (nowtime e.timers.next_state) f.period e.timers q pushed, at)
    poll_due-eq q pushed (inr (k, at, done)) =
        ground
          (arith, new_lem queue (nowtime e.timers.next_state) f.period e.timers q pushed, at, done)

    new_registered :
        (q : Q)
        → queue.push e.timers.next_state e.timers.registered ≡ some q
        → length (items e.timers.registered) < capacity
        → AreRegistered queue items capacity laws (started q).timers
    new_registered q pushed room =
        let (id, w, made, kept, fresh) =
          new-AreRegistered queue items capacity laws (nowtime e.timers.next_state) f.period
            e.timers h room in
        rewoken-AreRegistered (added (nowtime e.timers.next_state) f.period q e.timers)
          (started q).timers.states (λ i. ground arith)
          (subst (AreRegistered queue items capacity laws)
            (cc (made, new_lem queue (nowtime e.timers.next_state) f.period e.timers q pushed))
            kept)

    poll_due :
        length (items e.timers.registered) < capacity
        → IsDue f e
        → (q : Q) × (poll_test_task queue nowtime task f e ≡ some (some next_round, started q))
          × IsResumed task f next_round e (started q)
    poll_due room due =
        let (q, pushed, longer) = laws.takes e.timers.registered e.timers.next_state room in
        (
          q,
          poll_due-eq q pushed due,
          record {
            timer = e.timers.next_state;
            awaited = refl;
            own = inr (omega arith);
            below = omega arith;
            pending = ground arith;
            waker = ground arith;
            others = λ j ne. ground (arith, ne);
            registered = new_registered q pushed room;
            grows = omega arith;
            room = omega (
              arith,
              ap length longer,
              length-append (items e.timers.registered) (e.timers.next_state ∷ []),
            );
            tasks = refl;
            futures = refl;
            next_task = refl;
            prints = omega arith;
            due_prints = λ d. omega arith;
          },
        )

    pub poll-IsResumed :
        length (items e.timers.registered) < capacity
        → ((k : ℕ) → f.timer ≡ some k → k < e.timers.next_state)
        → (f' : TestTask) × (e' : Tasks Q TestTask) × (poll_test_task queue nowtime task f e
            ≡ some (some f', e'))
          × IsResumed task f f' e e'
    poll-IsResumed room below = elim (Option-cases f.timer) [
      | inl at ↦ let (q, polled, r) = poll_due room (inl at) in (next_round, started q, polled, r)
      | inr (k, at) ↦ elim (Bool-cases (e.timers.states k).completed) [
        | inl done ↦
            let (q, polled, r) = poll_due room (inr (k, at, done)) in
            (next_round, started q, polled, r)
        | inr waits ↦
            let (polled, r) = poll_pending k at (below k at) waits in (f, awaiting k, polled, r)
      ]
    ]
