-- ===== src/Arch/Kvmclock/Update.antt =====
-- What `get_monotonic_time` returns before and after the host updates its page.
use native.Mathlib.Nat.{mul-le-mul_left, zero-mul}
use urchin.Prelude.{
  ℕ, suc, ◌-◌, ◌*◌, ◌%◌, ◌/◌, ◌^◌, ◌<◌, ◌≤◌, ◌≡◌, refl, arith, ap, ◌∙◌, some, true, ltb, sub_u64,
}
use urchin.Arch.Kvmclock.{PvClockVcpuTimeInfo, time_of, get_monotonic_time}
use urchin.Arch.Kvmclock.Snapshot.{rest_lem}

-- The host is not at work on the page.
pub record IsAtRest (page : PvClockVcpuTimeInfo) : Type 0 where
  pub even : page.version % 2 ≡ 0
  pub fits : page.version < 2 ^ 32

rest_time :
    (fuel nowtsc : ℕ) (page : PvClockVcpuTimeInfo)
    → IsAtRest page
    → get_monotonic_time (suc fuel) nowtsc (λ k. page) ≡ some (time_of nowtsc page)
unfolding get_monotonic_time
rest_time fuel nowtsc page rest =
    rest_lem nowtsc (λ k. page) (record { grows = λ n. omega arith; fits = λ n. rest.fits }) fuel 0
      rest.even refl

-- The ticks since the last update, scaled up by the shift.
abbrev pub ticks : ℕ → PvClockVcpuTimeInfo → ℕ
ticks nowtsc page = (nowtsc - page.tsc_timestamp) * 2 ^ page.tsc_shift

product_fits : (x m : ℕ) → x < 2 ^ 64 → m < 2 ^ 32 → x * m < 2 ^ 96
product_fits x m h h' =
    let scaled : x * m ≤ x * 2 ^ 32 = mul-le-mul_left x (omega arith) in omega (arith, scaled)

time_since :
    (nowtsc : ℕ) (page : PvClockVcpuTimeInfo)
    → nowtsc < 2 ^ 64
    → page.tsc_timestamp ≤ nowtsc
    → page.tsc_shift < 128
    → ticks nowtsc page < 2 ^ 64
    → page.tsc_to_system_mul < 2 ^ 32
    → time_of nowtsc page ≡ ticks nowtsc page * page.tsc_to_system_mul / 2 ^ 32
unfolding time_of
time_since nowtsc page now le shift small mul =
    let delta : sub_u64 nowtsc page.tsc_timestamp ≡ nowtsc - page.tsc_timestamp = omega arith in
    let positive : ltb page.tsc_shift 128 ≡ true = ground arith in
    let amount : page.tsc_shift % 128 ≡ page.tsc_shift = omega arith in
    let shifted : ticks nowtsc page % 2 ^ 128 ≡ ticks nowtsc page = omega (arith, small) in
    let product = product_fits (ticks nowtsc page) page.tsc_to_system_mul small mul in
    rw (delta, positive) (rw amount (rw shifted (omega (arith, product))))

-- While the host's page is at rest, a call returns only the nanoseconds since the host last updated it: the
-- ticks since then, scaled by a shift to the left and by the multiplier, as long as they fit 64 bits, without
-- the `system_time` that the page adds. When the host then updates the page, a call at the tick of that update,
-- no earlier than the first call, returns zero.
pub clock_turns_back :
    (fuel nowtsc later : ℕ) (page updated : PvClockVcpuTimeInfo)
    → IsAtRest page
    → page.tsc_timestamp ≤ nowtsc
    → page.tsc_shift < 128
    → ticks nowtsc page < 2 ^ 64
    → page.tsc_to_system_mul < 2 ^ 32
    → nowtsc ≤ later
    → later < 2 ^ 64
    → IsAtRest updated
    → updated.tsc_timestamp ≡ later
    → updated.tsc_shift < 128
    → updated.tsc_to_system_mul < 2 ^ 32
    → (get_monotonic_time (suc fuel) nowtsc (λ k. page)
        ≡ some (ticks nowtsc page * page.tsc_to_system_mul / 2 ^ 32))
      × (get_monotonic_time (suc fuel) later (λ k. updated) ≡ some 0)
clock_turns_back fuel nowtsc later page updated rest le shift small mul order fits rest' at shift'
      mul' =
    let none_past : later - updated.tsc_timestamp ≡ 0 = omega arith in
    let no_ticks : ticks later updated ≡ 0 =
      ap (λ d. d * 2 ^ updated.tsc_shift) none_past ∙ zero-mul (2 ^ updated.tsc_shift) in
    (
      rest_time fuel nowtsc page rest
          ∙ ap some (time_since nowtsc page (omega arith) le shift small mul),
      rest_time fuel later updated rest'
          ∙ ap some (
              time_since later updated fits (omega arith) shift' (omega (arith, no_ticks)) mul'
              ∙ ap (λ t. t * updated.tsc_to_system_mul / 2 ^ 32) no_ticks
              ∙ ap (λ t. t / 2 ^ 32) (zero-mul updated.tsc_to_system_mul)
              ∙ omega arith),
    )
