-- ===== src/Arch/Kvmclock/Snapshot.antt =====
-- What the loop over the clock's page returns.
use urchin.Prelude.{
  ℕ, zero, suc, ◌+◌, ◌*◌, ◌%◌, ◌/◌, ◌^◌, ◌<◌, ◌≤◌, ◌≡◌, refl, arith, ap, sym, ◌∙◌, some, true, ◌==◌,
  bit_and, Bool-cases, inl, inr, ◌⊎◌,
}
use urchin.Prelude.Bits.{bit_and_low, bit_and_high}
use urchin.Arch.Kvmclock.{PvClockVcpuTimeInfo, time_of, time_loop}

-- The reads of a page that the host updates by the protocol of pvclock: its version never falls.
pub record IsPage (read : ℕ → PvClockVcpuTimeInfo) : Type 0 where
  pub grows : (n : ℕ) → (read n).version ≤ (read (n + 1)).version
  pub fits : (n : ℕ) → (read n).version < 2 ^ 32

-- The time is that of one read of the page, while the host was not at work on it.
pub record IsSnapshot (nowtsc : ℕ) (read : ℕ → PvClockVcpuTimeInfo) (time : ℕ) : Type 0 where
  pub at : ℕ
  pub time_is : time ≡ time_of nowtsc (read at)
  pub even : (read at).version % 2 ≡ 0
  pub same : (read at).version ≡ (read (at + 1)).version

even_part : (v : ℕ) → v < 2 ^ 32 → bit_and v 0xffff_fffe ≡ v / 2 * 2
even_part v h =
    bit_and_high 1 v 0x7fff_ffff ∙ ap (λ x. x * 2 ^ 1) (bit_and_low 31 (v / 2 ^ 1)) ∙ omega arith

parity : (v : ℕ) → bit_and v 1 ≡ v % 2
parity v = bit_and_low 1 v ∙ omega arith

module _ (nowtsc : ℕ) (read : ℕ → PvClockVcpuTimeInfo) (page : IsPage read) where
  -- A round returns the time of a snapshot, or goes on.
  round_lem :
      (fuel n : ℕ)
      → (time_loop (suc fuel) nowtsc read n ≡ some (time_of nowtsc (read n)))
          × ((read n).version % 2 ≡ 0)
          × ((read n).version ≡ (read (n + 1)).version)
        ⊎ (time_loop (suc fuel) nowtsc read n ≡ time_loop fuel nowtsc read (n + 2))
  unfolding time_loop
  round_lem fuel n =
      let old = even_part (read n).version (page.fits n) in
      let new = parity (read (n + 1)).version in
      let up = page.grows n in
      elim (Bool-cases (bit_and (read (n + 1)).version 1 == 0)) [
        | inl even ↦
            elim (Bool-cases ((read (n + 1)).version == bit_and (read n).version 0xffff_fffe)) [
              | inl same ↦
                  let is : (read (n + 1)).version ≡ bit_and (read n).version 0xffff_fffe =
                    ground arith in
                  inl (
                    ground (arith, even, same),
                    omega (arith, is, old, up),
                    omega (arith, is, old, up),
                  )
              | inr other ↦ inr (ground (arith, even, other))
            ]
        | inr odd ↦ inr (ground (arith, odd))
      ]

  pub rest_lem :
      (fuel n : ℕ)
      → (read n).version % 2 ≡ 0
      → (read n).version ≡ (read (n + 1)).version
      → time_loop (suc fuel) nowtsc read n ≡ some (time_of nowtsc (read n))
  unfolding time_loop
  rest_lem fuel n even same =
      let old : bit_and (read n).version 0xffff_fffe ≡ (read n).version =
        even_part (read n).version (page.fits n) ∙ omega arith in
      let new : bit_and (read (n + 1)).version 1 ≡ 0 =
        parity (read (n + 1)).version ∙ omega arith in
      let test : ((read (n + 1)).version == bit_and (read n).version 0xffff_fffe) ≡ true =
        ground (arith, old) in
      rw (new, test) refl

  -- The host's versions do not fall. Where the page is at rest, its version even, at the read of some round,
  -- the loop ends in that round or before, with the time of a snapshot: of one read, with an even version
  -- that the read behind it shows unchanged.
  pub time_loop-IsSnapshot :
      (quiet n : ℕ)
      → (read (n + 2 * quiet)).version % 2 ≡ 0
      → (read (n + 2 * quiet)).version ≡ (read (n + 2 * quiet + 1)).version
      → (time : ℕ) × (time_loop (suc quiet) nowtsc read n ≡ some time) × IsSnapshot nowtsc read time
  time_loop-IsSnapshot zero n even same =
      let here : n + 2 * 0 ≡ n = omega arith in
      let even' : (read n).version % 2 ≡ 0 = ap (λ k. (read k).version % 2) (sym here) ∙ even in
      let same' : (read n).version ≡ (read (n + 1)).version =
        ap (λ k. (read k).version) (sym here) ∙ same ∙ ap (λ k. (read (k + 1)).version) here in
      (
        time_of nowtsc (read n),
        rest_lem 0 n even' same',
        record { at = n; time_is = refl; even = even'; same = same' },
      )
  time_loop-IsSnapshot (suc quiet) n even same = elim (round_lem (suc quiet) n) [
    | inl (returned, even', same') ↦ (
      time_of nowtsc (read n),
      returned,
      record { at = n; time_is = refl; even = even'; same = same' },
    )
    | inr goes_on ↦
        let on : n + 2 * suc quiet ≡ (n + 2) + 2 * quiet = omega arith in
        let (time, returned, snapshot) =
          time_loop-IsSnapshot quiet (n + 2) (ap (λ k. (read k).version % 2) (sym on) ∙ even)
            (ap (λ k. (read k).version) (sym on) ∙ same ∙ ap (λ k. (read (k + 1)).version) on) in
        (time, goes_on ∙ returned, snapshot)
  ]
