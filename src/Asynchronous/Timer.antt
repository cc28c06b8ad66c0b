-- ===== src/Asynchronous/Timer.antt =====
-- `TimerFuture` and `check_timerfutures_from_interrupt` of src/asynchronous/timer.rs. A `SharedState` is
-- known by a number, since a future and the queue share it; a waker is the number of the task that it
-- wakes, as src/asynchronous/executor.rs makes it.
pub mod States
pub mod Expiry
pub mod Registered
use urchin.Prelude.{
  ℕ, zero, suc, ◌+◌, Option, none, some, Bool, true, false, ◌==◌, ltb, if◌then◌else◌, u64, ◌>>=◌,
  ◌%◌, ◌^◌,
}
use urchin.Asynchronous.ArrayQueue.{ArrayQueue}

pub record SharedState : Type 0 where
  pub completed : Bool
  pub expired_monotonic : ℕ
  pub waker : Option ℕ

-- The shared states, `REGISTERED_TIMER_STATES`, and the queue of the tasks to run.
pub record Timers (Q : Type 0) : Type 0 where
  pub states : ℕ → SharedState
  pub next_state : ℕ
  pub registered : Q
  pub tasks : Q

abbrev pub store : {A : Type 0} → ℕ → A → (ℕ → A) → ℕ → A
store i s states j = if j == i then s else states j

abbrev pub is_expired : ℕ → SharedState → Bool
is_expired nowtime s = ltb s.expired_monotonic nowtime

abbrev pub finish : SharedState → SharedState
finish s = record s { completed = true; waker = none }

-- `poll` by a task: whether it is ready.
unfoldable pub poll : {Q : Type 0} → ℕ → ℕ → Timers Q → Bool × Timers Q
poll id task w =
    let s = w.states id in
    if s.completed
    then (true, w)
    else (false, record w { states = store id (record s { waker = some task }) w.states })

module _ {Q : Type 0} (queue : ArrayQueue Q ℕ) where
  -- `Task::wake_by_ref`; `none` is the panic of `expect`.
  pub wake_by_ref : ℕ → Timers Q → Option (Timers Q)
  wake_by_ref task w = queue.push task w.tasks >>= λ q. some (record w { tasks = q })

  -- `TimerFuture::new`, at a time and for a duration in nanoseconds.
  unfoldable pub new : ℕ → ℕ → Timers Q → Option (ℕ × Timers Q)
  new nowtime duration w =
      let expiretime = u64 (nowtime + u64 duration) in
      let id = w.next_state in
      let shared_state : SharedState = record {
        completed = false;
        expired_monotonic = expiretime;
        waker = none;
      } in
      queue.push id w.registered >>= λ q. some (
        id,
        record w { states = store id shared_state w.states; next_state = suc id; registered = q },
      )

  -- The body of the loop, on the state that was popped.
  pub check_one : ℕ → ℕ → Timers Q → Option (Timers Q)
  unfolding wake_by_ref
  check_one nowtime i w =
      let s = w.states i in
      if is_expired nowtime s
      then (let completed = record w { states = store i (finish s) w.states } in
          elim s.waker [ none ↦ some completed | some task ↦ wake_by_ref task completed ])
      else (queue.push i w.registered >>= λ q. some (record w { registered = q }))

  pub check_loop : ℕ → ℕ → Timers Q → Option (Timers Q)
  unfolding check_one
  check_loop zero nowtime w = some w
  check_loop (suc n) nowtime w = elim (queue.pop w.registered) [
    | none ↦ check_loop n nowtime w
    | some (i, q) ↦ check_one nowtime i (record w { registered = q }) >>= check_loop n nowtime
  ]

  pub check_timerfutures_from_interrupt : ℕ → Timers Q → Option (Timers Q)
  unfolding check_loop
  check_timerfutures_from_interrupt nowtime w = check_loop (queue.len w.registered) nowtime w
