-- ===== src/Boot/Cmdline.antt =====
-- The command line ends at its first NUL.
use urchin.Prelude.{
  ℕ, zero, suc, ◌+◌, ◌<◌, ◌≤◌, ◌≡◌, ◌≢◌, refl, arith, ap, none, some, true, false, ◌==◌, ltb,
  Bool-cases, inl, inr,
}
use urchin.Arch.Mptable.{word32}
use urchin.Boot.{slice_of, nul_loop, get_cmdline}

-- A text of that many bytes lies at an address, none of them NUL, and a NUL behind it.
pub record IsText (memory : ℕ → ℕ) (a n : ℕ) : Type 0 where
  pub no_nul : (i : ℕ) → i < n → memory (a + i) ≢ 0
  pub nul_behind : memory (a + n) ≡ 0

nul_loop_found :
    (left i n : ℕ) (memory : ℕ → ℕ) (a : ℕ)
    → IsText memory a n
    → i ≤ n
    → n < i + left
    → nul_loop left i memory a ≡ some (slice_of memory a n)
unfolding nul_loop
nul_loop_found zero i n memory a h le lt = absurd (omega arith)
nul_loop_found (suc left) i n memory a h le lt = elim (Bool-cases (ltb i n)) [
  | inl before ↦
      let more : (memory (a + i) == 0) ≡ false = ground (arith, h.no_nul i) in
      rw more (nul_loop_found left (i + 1) n memory a h (ground arith) (omega arith))
  | inr here ↦
      let at : i ≡ n = ground arith in
      let nul : (memory (a + i) == 0) ≡ true =
        ground (arith, ap (λ k. memory (a + k)) at, h.nul_behind) in
      rw nul (ap (λ k. some (slice_of memory a k)) at)
]

nul_loop_missing :
    (left i : ℕ) (memory : ℕ → ℕ) (a : ℕ)
    → ((k : ℕ) → k < i + left → memory (a + k) ≢ 0)
    → nul_loop left i memory a ≡ none
unfolding nul_loop
nul_loop_missing zero i memory a h = refl
nul_loop_missing (suc left) i memory a h =
    let more : (memory (a + i) == 0) ≡ false = ground (arith, h i) in
    rw more (nul_loop_missing left (i + 1) memory a (λ k lt. h k (omega arith)))

module _ (memory : ℕ → ℕ) (boot_params : ℕ) where
  abbrev pub cmd_line_ptr : ℕ
  cmd_line_ptr = word32 memory (boot_params + 0x0228)

  abbrev pub cmd_line_size : ℕ
  cmd_line_size = word32 memory (boot_params + 0x0238)

  -- The command line is the text up to the first NUL, if that is within the size that the boot loader
  -- gives, and there is none if no NUL is.
  pub get_cmdline_lem :
      ((n : ℕ)
        → n < cmd_line_size
        → IsText memory cmd_line_ptr n
        → get_cmdline memory boot_params ≡ some (slice_of memory cmd_line_ptr n))
      × (((k : ℕ) → k < cmd_line_size → memory (cmd_line_ptr + k) ≢ 0)
          → get_cmdline memory boot_params ≡ none)
  unfolding get_cmdline
  get_cmdline_lem = (
    λ n lt text.
        nul_loop_found cmd_line_size 0 n memory cmd_line_ptr text (omega arith) (omega arith),
    λ none_there.
        nul_loop_missing cmd_line_size 0 memory cmd_line_ptr (λ k lt. none_there k (omega arith)),
  )
