-- ===== src/Kernel/TestTask/Resumed.antt =====
-- A poll of one task keeps all of them awake, and the others as they were.
use native.Mathlib.Decide.{ℕ_discrete}
use urchin.Prelude.{
  ℕ, ◌≤◌, ◌<◌, ◌≡◌, ◌≢◌, arith, ap, sym, ◌∙◌, List, ◌∷◌, none, some, ◌==◌, if◌then◌else◌, length,
  inl, inr,
}
use urchin.Asynchronous.ArrayQueue.{ArrayQueue, IsBounded}
use urchin.Asynchronous.Timer.{store}
use urchin.Asynchronous.Executor.{Tasks}
use urchin.Kernel.TestTask.{TestTask}
use urchin.Kernel.TestTask.Poll.{IsDue, IsResumed}
use urchin.Kernel.TestTask.Alive.{IsAwake, AreAwake}

module _ {Q : Type 0} (queue : ArrayQueue Q ℕ) (items : Q → List ℕ) (capacity : ℕ)
    (laws : IsBounded queue items capacity) where
  module _ (nowtime : ℕ → ℕ) (i : ℕ) (rest : List ℕ) (f f' : TestTask) (e e₂ e₃ : Tasks Q TestTask)
      (taken : e₂.futures ≡ store i none e.futures) (states : e₂.timers.states ≡ e.timers.states)
      (next_state : e₂.timers.next_state ≡ e.timers.next_state)
      (queued : e₂.timers.registered ≡ e.timers.registered) (slot : e.futures i ≡ some f)
      (r : IsResumed queue items capacity laws nowtime i f f' e₂ e₃)
      (h : AreAwake queue items capacity laws (i ∷ rest) e) where
    abbrev put_back : Tasks Q TestTask
    put_back = record e₃ { futures = store i (some f') e₃.futures }

    futures_lem : (j : ℕ) → put_back.futures j ≡ (if j == i then some f' else e.futures j)
    futures_lem j = ground (arith, ap (λ g. g j) r.futures, ap (λ g. g j) taken)

    futures_self : put_back.futures i ≡ some f'
    futures_self = ground arith

    futures_other :
        (j : ℕ) (g : TestTask) → j ≢ i → put_back.futures j ≡ some g → e.futures j ≡ some g
    futures_other j g ne at = ground (arith, futures_lem j, ne, at)

    this_task : (j : ℕ) (g : TestTask) → j ≡ i → put_back.futures j ≡ some g → g ≡ f'
    this_task j g same at = ground (arith, futures_lem j, same, at)

    -- No other task awaits the timer that this one awaits.
    not_shared :
        (j k : ℕ) (g : TestTask) → j ≢ i → e.futures j ≡ some g → g.timer ≡ some k → k ≢ r.timer
    not_shared j k g ne at awaits same = elim r.own [
      | inl old ↦ ne (h.own j i k g f at slot awaits (old ∙ ap some (sym same)))
      | inr new ↦ absurd (omega (arith, h.below j k g at awaits, next_state, same, new))
    ]

    its_timer :
        (j k : ℕ) (g : TestTask)
        → j ≡ i
        → put_back.futures j ≡ some g
        → g.timer ≡ some k
        → k ≡ r.timer
    its_timer j k g same at awaits =
        let e : some k ≡ some r.timer =
          sym awaits ∙ ap (λ x. x.timer) (this_task j g same at) ∙ r.awaited in
        cc

    same_states : (k : ℕ) → k ≢ r.timer → e₃.timers.states k ≡ e.timers.states k
    same_states k ne = r.others k ne ∙ ap (λ s. s k) states

    resumed-IsAwake :
        (j : ℕ) (g : TestTask)
        → put_back.futures j ≡ some g
        → IsAwake queue items capacity laws rest put_back j g
    resumed-IsAwake j g at = elim (ℕ_discrete j i) [
      | yes mine ↦ inr (
        r.timer,
        ap (λ x. x.timer) (this_task j g mine at) ∙ r.awaited,
        r.pending,
        r.waker ∙ ap some (sym mine),
      )
      | no ne ↦ elim (h.awake j g (futures_other j g ne at)) [
        | inl queue_there ↦ inl (ground (arith, queue_there, ne))
        | inr (k, awaits, waits, wakes) ↦
            let same = same_states k (not_shared j k g ne (futures_other j g ne at) awaits) in
            inr (k, awaits, ap (λ s. s.completed) same ∙ waits, ap (λ s. s.waker) same ∙ wakes)
      ]
    ]

    resumed_below :
        (j k : ℕ) (g : TestTask)
        → put_back.futures j ≡ some g
        → g.timer ≡ some k
        → k < put_back.timers.next_state
    resumed_below j k g at awaits = elim (ℕ_discrete j i) [
      | yes mine ↦ omega (arith, r.below, its_timer j k g mine at awaits)
      | no ne ↦ omega (arith, h.below j k g (futures_other j g ne at) awaits, next_state, r.grows)
    ]

    resumed_own :
        (j l k : ℕ) (g g' : TestTask)
        → put_back.futures j ≡ some g
        → put_back.futures l ≡ some g'
        → g.timer ≡ some k
        → g'.timer ≡ some k
        → j ≡ l
    resumed_own j l k g g' at at' awaits awaits' = elim (ℕ_discrete j i) [
      | yes mine ↦ elim (ℕ_discrete l i) [
        | yes mine' ↦ mine ∙ sym mine'
        | no ne ↦ absurd (
            not_shared l k g' ne (futures_other l g' ne at') awaits'
              (its_timer j k g mine at awaits))
      ]
      | no ne ↦ elim (ℕ_discrete l i) [
        | yes mine' ↦ absurd (
            not_shared j k g ne (futures_other j g ne at) awaits
              (its_timer l k g' mine' at' awaits'))
        | no ne' ↦
            h.own j l k g g' (futures_other j g ne at) (futures_other l g' ne' at') awaits awaits'
      ]
    ]

    resumed_there : (j : ℕ) → j < e.next_task → (g : TestTask) × (put_back.futures j ≡ some g)
    resumed_there j lt = elim (ℕ_discrete j i) [
      | yes mine ↦ (f', ap (λ x. put_back.futures x) mine ∙ futures_self)
      | no ne ↦ let (g, at) = h.there j lt in (g, futures_lem j ∙ ground (arith, at, ne))
    ]

    pub resumed-AreAwake :
        e₂.next_task ≡ e.next_task → AreAwake queue items capacity laws rest put_back
    resumed-AreAwake same = record {
      registered = r.registered;
      room = omega (arith, h.room, r.room, ap (λ x. length (items x)) queued);
      below = resumed_below;
      own = resumed_own;
      there = λ j lt. resumed_there j (omega (arith, lt, r.next_task, same));
      awake = resumed-IsAwake;
    }

    pub its_print :
        (g : TestTask)
        → e.futures i ≡ some g
        → (g' : TestTask) × (put_back.futures i ≡ some g')
          × (g.printed ≤ g'.printed)
          × (IsDue queue items capacity laws nowtime g e → g.printed < g'.printed)
    its_print g at = (
      f',
      futures_self,
      omega (arith, r.prints, ap (λ x. x.printed) same),
      λ due. omega (arith, r.due_prints (its_due due), ap (λ x. x.printed) same),
    )
      where
        same : g ≡ f
        same = cc (slot, at)

        its_due :
            IsDue queue items capacity laws nowtime g e
            → IsDue queue items capacity laws nowtime f e₂
        its_due (inl gone) = inl (sym (ap (λ x. x.timer) same) ∙ gone)
        its_due (inr (k, awaits, done)) =
            inr (k, sym (ap (λ x. x.timer) same) ∙ awaits, ap (λ s. (s k).completed) states ∙ done)

    pub others_stay :
        (j : ℕ) (g : TestTask)
        → j ≢ i
        → e.futures j ≡ some g
        → (put_back.futures j ≡ some g)
          × (IsDue queue items capacity laws nowtime g e
              → IsDue queue items capacity laws nowtime g put_back)
    others_stay j g ne at = (futures_lem j ∙ ground (arith, at, ne), still_due)
      where
        still_due :
            IsDue queue items capacity laws nowtime g e
            → IsDue queue items capacity laws nowtime g put_back
        still_due (inl gone) = inl gone
        still_due (inr (k, awaits, done)) = inr (
          k,
          awaits,
          ap (λ s. s.completed) (same_states k (not_shared j k g ne at awaits)) ∙ done,
        )
