-- ===== src/Asynchronous/Timer/Expiry.antt =====
-- What one interrupt of the timer does with the registered states.
use urchin.Prelude.{
  append-nil, append_assoc, Option-cases, ℕ, suc, ◌+◌, ◌≤◌, ◌<◌, ◌≡◌, refl, arith, ap, ap₂, sym,
  ◌∙◌, List, [], ◌∷◌, ◌++◌, some, length, length-append, filter, Bool-cases, inl, inr,
}
use urchin.Asynchronous.Timer.States.{
  AllDistinct, wakers_of, wakers, is_pending, after, filter-ext, wakers-after, after_expired,
  after_pending, after_cons, pending-after, filter-cons, length-filter_one, length-wakers_of,
}
use urchin.Asynchronous.ArrayQueue.{ArrayQueue, IsBounded}
use urchin.Asynchronous.Timer.{
  Timers, store, wake_by_ref, is_expired, finish, check_one, check_loop,
  check_timerfutures_from_interrupt,
}

module _ {Q : Type 0} (queue : ArrayQueue Q ℕ) (items : Q → List ℕ) (capacity : ℕ)
    (laws : IsBounded queue items capacity) (nowtime : ℕ) where
  -- The timers after the states `is` were looked at: those not expired are at the end of the queue, the
  -- tasks of the others are queued.
  pub record AreChecked (is kept : List ℕ) (w w' : Timers Q) : Type 0 where
    pub registered : items w'.registered ≡ kept ++ filter (is_pending nowtime w.states) is
    pub tasks : items w'.tasks ≡ items w.tasks ++ wakers nowtime w.states is
    pub states : (i : ℕ) → w'.states i ≡ after nowtime w.states is i
    pub next_state : w'.next_state ≡ w.next_state

  -- One state that was popped.
  record IsLooked (i : ℕ) (w w' : Timers Q) : Type 0 where
    pub registered :
        items w'.registered ≡ items w.registered ++ filter (is_pending nowtime w.states) (i ∷ [])
    pub tasks : items w'.tasks ≡ items w.tasks ++ wakers_of nowtime (w.states i)
    pub states : (j : ℕ) → w'.states j ≡ after nowtime w.states (i ∷ []) j
    pub next_state : w'.next_state ≡ w.next_state

  check_one_lem :
      (i : ℕ) (w : Timers Q)
      → length (items w.registered) < capacity
      → length (items w.tasks) < capacity
      → (w' : Timers Q) × (check_one queue nowtime i w ≡ some w') × IsLooked i w w'
  unfolding check_one wake_by_ref
  check_one_lem i w small room = elim (Bool-cases (is_expired nowtime (w.states i))) [
    | inl e ↦ elim (Option-cases (w.states i).waker) [
      | inl w_none ↦ (
        record w { states = store i (finish (w.states i)) w.states },
        rw (e, w_none) refl,
        record {
          registered = rw e (sym (append-nil (items w.registered)));
          tasks = rw (e, w_none) (sym (append-nil (items w.tasks)));
          states = after_expired nowtime i w.states e;
          next_state = refl;
        },
      )
      | inr (task, w_some) ↦
          let (q, pushed, added) = laws.takes w.tasks task room in
          (
            record w { states = store i (finish (w.states i)) w.states; tasks = q },
            rw (e, w_some, pushed) refl,
            record {
              registered = rw e (sym (append-nil (items w.registered)));
              tasks = rw (e, w_some) added;
              states = after_expired nowtime i w.states e;
              next_state = refl;
            },
          )
    ]
    | inr e ↦
        let (q, pushed, added) = laws.takes w.registered i small in
        (
          record w { registered = q },
          rw (e, pushed) refl,
          record {
            registered = rw e added;
            tasks = rw e (sym (append-nil (items w.tasks)));
            states = after_pending nowtime i w.states e;
            next_state = refl;
          },
        )
  ]

  step_lem :
      (n i : ℕ) (w : Timers Q) (q : Q)
      → queue.pop w.registered ≡ some (i, q)
      → (w₁ : Timers Q) → check_one queue nowtime i (record w { registered = q }) ≡ some w₁
      → check_loop queue (suc n) nowtime w ≡ check_loop queue n nowtime w₁
  unfolding check_loop
  step_lem n i w q popped w₁ looked = ground (arith, popped, looked)

  check_loop_lem :
      (is kept : List ℕ) (w : Timers Q)
      → items w.registered ≡ is ++ kept
      → AllDistinct is
      → length is + length kept ≤ capacity
      → length (items w.tasks) + length is ≤ capacity
      → (w' : Timers Q) × (check_loop queue (length is) nowtime w ≡ some w')
        × AreChecked is kept w w'
  unfolding check_loop
  check_loop_lem [] kept w e distinct small room = (
    w,
    refl,
    record {
      registered = e ∙ sym (append-nil kept);
      tasks = sym (append-nil (items w.tasks));
      states = λ i. refl;
      next_state = refl;
    },
  )
  check_loop_lem (i ∷ is) kept w e distinct small room =
      let f = filter (is_pending nowtime w.states) (i ∷ []) in
      let (q, popped, rest) = laws.pop_front w.registered i (is ++ kept) e in
      let (w₁, looked, first) =
        check_one_lem i (record w { registered = q })
          (omega (arith, ap length rest, length-append is kept, small)) (omega (arith, room)) in
      let (w₂, checked, others) =
        check_loop_lem is (kept ++ f) w₁
          (first.registered ∙ ap (λ l. l ++ f) rest ∙ append_assoc is kept f) distinct.1
          (omega
            (arith, small, length-append kept f, length-filter_one (is_pending nowtime w.states) i))
          (omega (
            arith,
            room,
            ap length first.tasks,
            length-append (items w.tasks) (wakers_of nowtime (w.states i)),
            length-wakers_of nowtime (w.states i),
          )) in
      (
        w₂,
        step_lem (length is) i w q popped w₁ looked ∙ checked,
        record {
          registered =
              others.registered
              ∙ ap (λ l. (kept ++ f) ++ l)
                  (filter-ext _ _ (pending-after nowtime i w.states w₁.states first.states) is)
              ∙ append_assoc kept f (filter (is_pending nowtime w.states) is)
              ∙ ap (λ l. kept ++ l) (sym (filter-cons (is_pending nowtime w.states) i is));
          tasks =
              others.tasks
              ∙ ap₂ ◌++◌ first.tasks
                  (wakers-after nowtime i w.states w₁.states is distinct.0 first.states)
              ∙ append_assoc (items w.tasks) (wakers_of nowtime (w.states i))
                  (wakers nowtime w.states is);
          states = λ j.
              others.states j
              ∙ after_cons nowtime i w.states w₁.states is distinct.0 first.states j;
          next_state = others.next_state ∙ first.next_state;
        },
      )

  -- An interrupt of the timer on registered states that are there once, with room for the tasks that they
  -- wake, does not panic. The expired states are completed, each with its waker taken, and leave the
  -- queue, in which the others stay in their order; the tasks that wait for an expired state are queued in
  -- the order of the states; no other state is changed.
  pub check_timerfutures-AreChecked :
      (w : Timers Q)
      → AllDistinct (items w.registered)
      → length (items w.registered) ≤ capacity
      → length (items w.tasks) + length (items w.registered) ≤ capacity
      → (w' : Timers Q) × (check_timerfutures_from_interrupt queue nowtime w ≡ some w')
        × AreChecked (items w.registered) [] w w'
  unfolding check_timerfutures_from_interrupt
  check_timerfutures-AreChecked w distinct small room = rw (laws.counts w.registered) (
      check_loop_lem (items w.registered) [] w (sym (append-nil (items w.registered))) distinct
        (omega arith) room)
