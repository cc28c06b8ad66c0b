-- ===== src/Asynchronous/Timer/Registered.antt =====
-- The invariant of the queue of timers.
use urchin.Prelude.{
  ℕ, suc, ◌+◌, ◌≤◌, ◌<◌, ◌≡◌, ◌≢◌, refl, arith, ap, sym, ◌∙◌, List, [], ◌∷◌, ◌++◌, none, some, Bool,
  true, false, ◌||◌, ◌==◌, length, length-append, filter, All, Bool-cases, inl, inr, u64,
}
use urchin.Asynchronous.ArrayQueue.{ArrayQueue, IsBounded}
use urchin.Asynchronous.Timer
use urchin.Asynchronous.Timer.{
  SharedState, Timers, store, poll, is_expired, check_timerfutures_from_interrupt,
}
use urchin.Asynchronous.Timer.States.{AllDistinct, elem, is_pending, after}
use urchin.Asynchronous.Timer.Expiry.{AreChecked, check_timerfutures-AreChecked}

filter-All : (P : ℕ → Type 0) (p : ℕ → Bool) (is : List ℕ) → All P is → All P (filter p is)
filter-All P p [] h = h
filter-All P p (i ∷ is) h = elim (Bool-cases (p i)) [
  | inl e ↦ rw e (h.0, filter-All P p is h.1)
  | inr e ↦ rw e (filter-All P p is h.1)
]

filter-AllDistinct : (p : ℕ → Bool) (is : List ℕ) → AllDistinct is → AllDistinct (filter p is)
filter-AllDistinct p [] h = h
filter-AllDistinct p (i ∷ is) h = elim (Bool-cases (p i)) [
  | inl e ↦ rw e (filter-All (λ j. j ≢ i) p is h.0, filter-AllDistinct p is h.1)
  | inr e ↦ rw e (filter-AllDistinct p is h.1)
]

elem-filter :
    (p : ℕ → Bool) (i : ℕ) (is : List ℕ)
    → p i ≡ true
    → elem i is ≡ true
    → elem i (filter p is) ≡ true
elem-filter p i [] h e = e
elem-filter p i (j ∷ is) h e = elim (Bool-cases (i == j)) [
  | inl same ↦
      let at : i ≡ j = ground arith in
      let kept : p j ≡ true = ap p (sym at) ∙ h in rw (kept, same) refl
  | inr other ↦
      let inside : elem i is ≡ true = ground (arith, e) in
      elim (Bool-cases (p j)) [
        | inl kept ↦ rw (kept, other) (elem-filter p i is h inside)
        | inr gone ↦ rw gone (elem-filter p i is h inside)
      ]
]

length-filter : (p : ℕ → Bool) (is : List ℕ) → length (filter p is) ≤ length is
length-filter p [] = omega arith
length-filter p (i ∷ is) = elim (Bool-cases (p i)) [
  | inl e ↦ rw e (omega (arith, length-filter p is))
  | inr e ↦ rw e (omega (arith, length-filter p is))
]

All-append_one : (P : ℕ → Type 0) (is : List ℕ) (i : ℕ) → All P is → P i → All P (is ++ (i ∷ []))
All-append_one P [] i h hi = (hi, tt)
All-append_one P (j ∷ is) i h hi = (h.0, All-append_one P is i h.1 hi)

append_one-AllDistinct :
    (is : List ℕ) (i : ℕ) → AllDistinct is → All (λ j. j < i) is → AllDistinct (is ++ (i ∷ []))
append_one-AllDistinct [] i h below = (tt, tt)
append_one-AllDistinct (j ∷ is) i h below = (
  All-append_one (λ k. k ≢ j) is i h.0 (omega (arith, below.0)),
  append_one-AllDistinct is i h.1 below.1,
)

pub elem-append_one : (i k : ℕ) (is : List ℕ) → elem k (is ++ (i ∷ [])) ≡ (elem k is || (k == i))
elem-append_one i k [] = ground arith
elem-append_one i k (j ∷ is) = ground (arith, elem-append_one i k is)

All-widen : (n : ℕ) (is : List ℕ) → All (λ i. i < n) is → All (λ i. i < suc n) is
All-widen n [] h = h
All-widen n (i ∷ is) h = (omega (arith, h.0), All-widen n is h.1)

abbrev pub new_state : ℕ → ℕ → SharedState
new_state nowtime duration = record {
  completed = false;
  expired_monotonic = u64 (nowtime + u64 duration);
  waker = none;
}

-- The timers with one more.
abbrev pub added : {Q : Type 0} → ℕ → ℕ → Q → Timers Q → Timers Q
added nowtime duration q w = record w {
  states = store w.next_state (new_state nowtime duration) w.states;
  next_state = suc w.next_state;
  registered = q;
}

pub new_lem :
    {Q : Type 0} (queue : ArrayQueue Q ℕ) (nowtime duration : ℕ) (w : Timers Q) (q : Q)
    → queue.push w.next_state w.registered ≡ some q
    → Timer.new queue nowtime duration w ≡ some (w.next_state, added nowtime duration q w)
unfolding Timer.new
new_lem queue nowtime duration w q pushed = rw pushed refl

module _ {Q : Type 0} (queue : ArrayQueue Q ℕ) (items : Q → List ℕ) (capacity : ℕ)
    (laws : IsBounded queue items capacity) where
  -- The queue holds every timer that is not completed, and none of them twice.
  pub record AreRegistered (w : Timers Q) : Type 0 where
    pub distinct : AllDistinct (items w.registered)
    pub below : All (λ i. i < w.next_state) (items w.registered)
    pub fits : length (items w.registered) ≤ capacity
    pub complete :
        (i : ℕ)
        → i < w.next_state
        → (w.states i).completed ≡ false
        → elem i (items w.registered) ≡ true

  -- A new timer is registered where the queue has room, and expires its duration after the time of the
  -- call, as far as 64 bits go; every timer that is not completed stays in the queue, once.
  pub new-AreRegistered :
      (nowtime duration : ℕ) (w : Timers Q)
      → AreRegistered w
      → length (items w.registered) < capacity
      → (id : ℕ) × (w' : Timers Q) × (Timer.new queue nowtime duration w ≡ some (id, w'))
        × AreRegistered w'
        × (w'.states id ≡ new_state nowtime duration)
  new-AreRegistered nowtime duration w h room =
      let (q, pushed, longer) = laws.takes w.registered w.next_state room in
      (
        w.next_state,
        added nowtime duration q w,
        new_lem queue nowtime duration w q pushed,
        record {
          distinct =
              rw longer
                (append_one-AllDistinct (items w.registered) w.next_state h.distinct h.below);
          below = rw longer (
              All-append_one (λ i. i < suc w.next_state) (items w.registered) w.next_state
                (All-widen w.next_state (items w.registered) h.below) (omega arith));
          fits =
              rw longer
                (omega (arith, length-append (items w.registered) (w.next_state ∷ []), room));
          complete = λ i lt e.
              ap (elem i) longer
              ∙ elem-append_one w.next_state i (items w.registered)
              ∙ there i lt e;
        },
        here,
      )
    where
      there :
          (i : ℕ)
          → i < suc w.next_state
          → (store w.next_state (new_state nowtime duration) w.states i).completed ≡ false
          → (elem i (items w.registered) || (i == w.next_state)) ≡ true
      there i lt e = ground (arith, h.complete i)

      here :
          store w.next_state (new_state nowtime duration) w.states w.next_state
          ≡ new_state nowtime duration
      here = ground arith

  pub check-AreRegistered :
      (nowtime : ℕ) (w w' : Timers Q)
      → AreRegistered w
      → AreChecked queue items capacity laws nowtime (items w.registered) [] w w'
      → AreRegistered w'
  check-AreRegistered nowtime w w' h c = record {
    distinct = rw c.registered (filter-AllDistinct pending (items w.registered) h.distinct);
    below =
        rw (c.registered, c.next_state)
          (filter-All (λ i. i < w.next_state) pending (items w.registered) h.below);
    fits =
        omega (arith, ap length c.registered, length-filter pending (items w.registered), h.fits);
    complete = λ i lt e.
        ap (elem i) c.registered
        ∙ there i (omega (arith, c.next_state)) (sym (ap (λ s. s.completed) (c.states i)) ∙ e);
  }
    where
      pending : ℕ → Bool
      pending = is_pending nowtime w.states

      there :
          (i : ℕ)
          → i < w.next_state
          → (after nowtime w.states (items w.registered) i).completed ≡ false
          → elem i (filter pending (items w.registered)) ≡ true
      there i lt e = elim (Bool-cases (is_expired nowtime (w.states i))) [
        | inl late ↦ absurd (ground (arith, h.complete i, e))
        | inr early ↦
            elem-filter pending i (items w.registered) (rw early refl)
              (ground (arith, h.complete i, e))
      ]

  -- A new timer, where the queue has room, and an interrupt of the timer, where the tasks that it wakes have
  -- room, keep the timers registered: every timer that is not completed is in the queue, and none is twice.
  pub timers_stay_registered :
      (nowtime : ℕ) (w : Timers Q)
      → AreRegistered w
      → length (items w.registered) < capacity
      → length (items w.tasks) + length (items w.registered) ≤ capacity
      → ((duration : ℕ)
          → (id : ℕ) × (w' : Timers Q) × (Timer.new queue nowtime duration w ≡ some (id, w'))
            × AreRegistered w')
        × ((w' : Timers Q) × (check_timerfutures_from_interrupt queue nowtime w ≡ some w')
            × AreRegistered w')
  timers_stay_registered nowtime w h small room =
      let (checked, returned, c) =
        check_timerfutures-AreChecked queue items capacity laws nowtime w h.distinct (omega arith)
          room in
      (
        λ duration.
            let (id, w', made, kept, fresh) = new-AreRegistered nowtime duration w h small in
            (id, w', made, kept),
        (checked, returned, check-AreRegistered nowtime w checked h c),
      )
