-- ===== src/Arch/Kvmclock.antt =====
-- src/arch/x86_64/kvmclock.rs: the pages that the host writes, and the loops that read them. The volatile
-- reads of a page are a sequence, since the host may write between any two.
pub mod Snapshot
pub mod Update
use urchin.Prelude.{
  ℕ, zero, suc, ◌+◌, ◌-◌, ◌*◌, ◌/◌, ◌%◌, ◌^◌, Option, none, some, Bool, true, false, ◌==◌, ltb, not,
  if◌then◌else◌, u32, u64, u128, sub_u64, shl_u128, bit_and, bit_or, ◌>>>◌, ◌<<<◌, ◌>>=◌,
}
use urchin.Arch.Io.{Machine, wrmsr}
use urchin.Arch.Calendar.{CalendarTime, get_calendar_from_epoch}

-- `tsc_shift` is the byte of an i8.
pub record PvClockVcpuTimeInfo : Type 0 where
  pub version : ℕ
  pub tsc_timestamp : ℕ
  pub system_time : ℕ
  pub tsc_to_system_mul : ℕ
  pub tsc_shift : ℕ

pub record PvClockWallClock : Type 0 where
  pub version : ℕ
  pub sec : ℕ
  pub nsec : ℕ

-- `false` is the error.
unfoldable pub init_kvmclock : {R : Type 0} → Machine R → ℕ → ℕ → R → Bool × R
init_kvmclock machine wallclock clockinfo r =
    let features = machine.kvm_features r in
    let clockinfo_address = bit_or clockinfo 1 in
    if not (bit_and features (1 <<< 3) == 0)
    then (true, wrmsr machine 0x4b56_4d01 clockinfo_address (wrmsr machine 0x4b56_4d00 wallclock r))
    else if not (bit_and features (1 <<< 0) == 0)
    then (true, wrmsr machine 0x12 clockinfo_address (wrmsr machine 0x11 wallclock r))
    else (false, r)

-- The nanoseconds that a page gives for a time stamp.
pub time_of : ℕ → PvClockVcpuTimeInfo → ℕ
time_of nowtsc old_val =
    let tsc_delta = sub_u64 nowtsc old_val.tsc_timestamp in
    let shifted_delta =
      if ltb old_val.tsc_shift 128
      then shl_u128 tsc_delta old_val.tsc_shift
      else tsc_delta >>> ((256 - old_val.tsc_shift) % 128) in
    u64 (u128 (shifted_delta * old_val.tsc_to_system_mul) >>> 32)

-- The loop, from the n-th read on, for at most `fuel` rounds.
pub time_loop : ℕ → ℕ → (ℕ → PvClockVcpuTimeInfo) → ℕ → Option ℕ
unfolding time_of
time_loop zero nowtsc read n = none
time_loop (suc fuel) nowtsc read n =
    let old_val = read n in
    let new_val = read (n + 1) in
    let again = time_loop fuel nowtsc read (n + 2) in
    if not (bit_and new_val.version 1 == 0)
    then again
    else if not (new_val.version == bit_and old_val.version 0xffff_fffe)
    then again
    else some (time_of nowtsc old_val)

pub get_monotonic_time : ℕ → ℕ → (ℕ → PvClockVcpuTimeInfo) → Option ℕ
unfolding time_loop
get_monotonic_time fuel nowtsc read = time_loop fuel nowtsc read 0

pub wall_loop : ℕ → (ℕ → PvClockWallClock) → ℕ → Option (ℕ × ℕ)
wall_loop zero read n = none
wall_loop (suc fuel) read n =
    let old_val = read n in
    let new_val = read (n + 1) in
    let again = wall_loop fuel read (n + 2) in
    if not (bit_and new_val.version 1 == 0)
    then again
    else if not (new_val.version == old_val.version)
    then again
    else some (old_val.sec, old_val.nsec)

-- The clock is asked twice, and the first answer is not used.
pub get_calendar : ℕ → (ℕ → PvClockWallClock) → Option ℕ → Option ℕ → Option CalendarTime
unfolding wall_loop
get_calendar fuel read first second = do
  (wc_sec, wc_nsec) ← wall_loop fuel read 0
  delta ← first
  monotonic ← second
  let nsec_from_epoch = u64 (wc_sec * 1_000_000_000 + wc_nsec + monotonic)
  get_calendar_from_epoch (nsec_from_epoch / 1_000_000_000)
