-- ===== src/Asynchronous/Executor/Wakes.antt =====
-- A task that waits for a timer is run once the timer has expired.
use urchin.Prelude.{
  ℕ, suc, ◌+◌, ◌≤◌, ◌≡◌, refl, arith, ap, sym, ◌∙◌, List, [], ◌∷◌, ◌++◌, none, some, true, false,
  ◌==◌, if◌then◌else◌, length, Bool-cases, inl, inr, ◌⊎◌,
}
use urchin.Asynchronous.ArrayQueue.{ArrayQueue, IsBounded}
use urchin.Asynchronous.Timer
use urchin.Asynchronous.Timer.{
  SharedState, Timers, store, is_expired, check_timerfutures_from_interrupt,
}
use urchin.Asynchronous.Timer.States.{AllDistinct, elem, wakers, wakers_of}
use urchin.Asynchronous.Timer.Expiry.{check_timerfutures-AreChecked}
use urchin.Asynchronous.Executor.{Tasks, with_tasks, poll_task, run, poll_timer}
use urchin.Asynchronous.Executor.Drain.{IsQuiet, Polled, none_left, next, run-Polled}

pub elem-append_left : (i : ℕ) (xs ys : List ℕ) → elem i xs ≡ true → elem i (xs ++ ys) ≡ true
elem-append_left i [] ys h = absurd (ground (arith, h))
elem-append_left i (x ∷ xs) ys h = ground (arith, h, elem-append_left i xs ys)

pub elem-append_right : (i : ℕ) (xs ys : List ℕ) → elem i ys ≡ true → elem i (xs ++ ys) ≡ true
elem-append_right i [] ys h = h
elem-append_right i (x ∷ xs) ys h = ground (arith, elem-append_right i xs ys h)

pub elem-wakers :
    (nowtime k i : ℕ) (states : ℕ → SharedState) (is : List ℕ)
    → is_expired nowtime (states k) ≡ true
    → (states k).waker ≡ some i
    → elem k is ≡ true
    → elem i (wakers nowtime states is) ≡ true
elem-wakers nowtime k i states [] late waits there = absurd (ground (arith, there))
elem-wakers nowtime k i states (j ∷ is) late waits there = elim (Bool-cases (k == j)) [
  | inl same ↦ elem-append_left i (wakers_of nowtime (states j)) _ (here j (ground arith))
  | inr other ↦
      elem-append_right i (wakers_of nowtime (states j)) _
        (elem-wakers nowtime k i states is late waits (ground (arith, there)))
]
  where
    here : (j : ℕ) → k ≡ j → elem i (wakers_of nowtime (states j)) ≡ true
    here j e =
        ap (λ l. elem i (wakers_of nowtime (states l))) (sym e) ∙ rw (late, waits) (ground arith)

module _ {Q : Type 0} (queue : ArrayQueue Q ℕ) (items : Q → List ℕ) (capacity : ℕ)
    (laws : IsBounded queue items capacity) where
  pub poll_timer-IsQuiet : IsQuiet queue items capacity laws poll_timer
  unfolding poll_timer Timer.poll
  poll_timer-IsQuiet task id e = elim (Bool-cases (e.timers.states id).completed) [
    | inl done ↦ (none, e, rw done refl, refl)
    | inr waits ↦ (
      some id,
      record e {
        timers = record e.timers {
          states = store id (record (e.timers.states id) { waker = some task }) e.timers.states;
        };
      },
      rw waits refl,
      refl,
    )
  ]

  abbrev polled : ℕ → Tasks Q ℕ → Tasks Q ℕ
  polled task e = elim (e.futures task) [
    | none ↦ e
    | some id ↦
        if (e.timers.states id).completed
        then record e { futures = store task none e.futures }
        else record e {
          futures = store task (some id) (store task none e.futures);
          timers = record e.timers {
            states = store id (record (e.timers.states id) { waker = some task }) e.timers.states;
          };
        }
  ]

  poll_task-eq-polled :
      (task : ℕ) (e : Tasks Q ℕ) → poll_task queue poll_timer task e ≡ some (polled task e)
  unfolding poll_task poll_timer Timer.poll
  poll_task-eq-polled task e = ground arith

  result-eq-polled :
      (task : ℕ) (e e₁ : Tasks Q ℕ)
      → poll_task queue poll_timer task e ≡ some e₁
      → polled task e ≡ e₁
  result-eq-polled task e e₁ one = cc (poll_task-eq-polled task e, one)

  completed-polled :
      (k task : ℕ) (e : Tasks Q ℕ)
      → (e.timers.states k).completed ≡ true
      → ((polled task e).timers.states k).completed ≡ true
  completed-polled k task e h = ground (arith, h)

  futures-polled-none :
      (i task : ℕ) (e : Tasks Q ℕ) → e.futures i ≡ none → (polled task e).futures i ≡ none
  futures-polled-none i task e h = ground (arith, h)

  futures-polled_self :
      (i k : ℕ) (e : Tasks Q ℕ)
      → e.futures i ≡ some k
      → (e.timers.states k).completed ≡ true
      → (polled i e).futures i ≡ none
  futures-polled_self i k e h done = ground (arith, h, done)

  futures-polled_other :
      (i k task : ℕ) (e : Tasks Q ℕ)
      → (i == task) ≡ false
      → e.futures i ≡ some k
      → (polled task e).futures i ≡ some k
  futures-polled_other i k task e other h = ground (arith, other, h)

  module _ (i k : ℕ) where
    abbrev Finishing : List ℕ → Tasks Q ℕ → Type 0
    Finishing tasks e = (e.futures i ≡ none) ⊎ (elem i tasks ≡ true) × (e.futures i ≡ some k)

    polled-Finishing :
        (task : ℕ) (rest : List ℕ) (e e₁ : Tasks Q ℕ)
        → polled task e ≡ e₁
        → (e.timers.states k).completed ≡ true
        → Finishing (task ∷ rest) e
        → Finishing rest e₁
    polled-Finishing task rest e e₁ one done (inl gone) =
        inl (sym (ap (λ x. x.futures i) one) ∙ futures-polled-none i task e gone)
    polled-Finishing task rest e e₁ one done (inr (there, waits)) = elim (Bool-cases (i == task)) [
      | inl same ↦
          let at : i ≡ task = ground arith in
          inl (
            sym (ap (λ x. x.futures i) one)
            ∙ sym (ap (λ j. (polled j e).futures i) at)
            ∙ futures-polled_self i k e waits done)
      | inr other ↦ inr (
        ground (arith, there, other),
        sym (ap (λ x. x.futures i) one) ∙ futures-polled_other i k task e other waits,
      )
    ]

    finishes :
        (tasks : List ℕ) (e e' : Tasks Q ℕ)
        → Polled queue items capacity laws poll_timer tasks e e'
        → (e.timers.states k).completed ≡ true
        → Finishing tasks e
        → e'.futures i ≡ none
    finishes _ e _ (none_left _) done (inl gone) = gone
    finishes _ e _ (none_left _) done (inr (there, waits)) = absurd (ground (arith, there))
    finishes _ _ _ (next {task} {rest} {q} {e} {e₁} {e₂} popped one all) done h =
        let same = result-eq-polled task (with_tasks q e) e₁ one in
        finishes rest e₁ e₂ all
          (sym (ap (λ x. (x.timers.states k).completed) same)
            ∙ completed-polled k task (with_tasks q e) done)
          (polled-Finishing task rest (with_tasks q e) e₁ same done h)

    -- A task waits for a registered timer. Once an interrupt finds the timer expired, `run` ends, and the
    -- task is done.
    pub expired_timer_finishes :
        (nowtime : ℕ) (e : Tasks Q ℕ)
        → AllDistinct (items e.timers.registered)
        → length (items e.timers.registered) ≤ capacity
        → length (items e.timers.tasks) + length (items e.timers.registered) ≤ capacity
        → elem k (items e.timers.registered) ≡ true
        → is_expired nowtime (e.timers.states k) ≡ true
        → (e.timers.states k).waker ≡ some i
        → e.futures i ≡ some k
        → (w : Timers Q) × (e' : Tasks Q ℕ) × (fuel : ℕ) × (check_timerfutures_from_interrupt queue
              nowtime e.timers
            ≡ some w)
          × (run queue poll_timer fuel (record e { timers = w }) ≡ some (some e'))
          × (e'.futures i ≡ none)
    expired_timer_finishes nowtime e distinct small room there late waits slot =
        let (w, checked, c) =
          check_timerfutures-AreChecked queue items capacity laws nowtime e.timers distinct small
            room in
        let (e', ran, all, left) =
          run-Polled queue items capacity laws poll_timer poll_timer-IsQuiet (items w.tasks)
            (record e { timers = w }) refl in
        let queued : elem i (items w.tasks) ≡ true =
          ap (elem i) c.tasks
          ∙ elem-append_right i (items e.timers.tasks) _ (
              elem-wakers nowtime k i e.timers.states (items e.timers.registered) late waits
                there) in
        let done : (w.states k).completed ≡ true =
          ap (λ s. s.completed) (c.states k) ∙ rw (there, late) refl in
        (
          w,
          e',
          suc (length (items w.tasks)),
          checked,
          ran,
          finishes (items w.tasks) (record e { timers = w }) e' all done (inr (queued, slot)),
        )
