-- ===== src/Arch/Io.antt =====
-- src/arch/x86_64/io.rs: the machine that the instructions act on is a parameter; `wrmsr`, `rdmsr` and
-- `rdtsc` move 64 bits as two halves.
pub mod Halves
use urchin.Prelude.{ℕ, ◌%◌, ◌*◌, ◌/◌, ◌^◌, bit_and, bit_or, u32, ◌<<<◌, ◌>>>◌}

-- What the instructions and the volatile accesses do. `rdmsr_insn` and `rdtsc_insn` give `edx` and `eax`;
-- `elapse` is the time from one access to the next of a loop that waits.
pub record Machine (R : Type 0) : Type 0 where
  pub read32 : ℕ → R → ℕ
  pub write32 : ℕ → ℕ → R → R
  pub out_insn : ℕ → ℕ → R → R
  pub in_insn : ℕ → R → ℕ × R
  pub wrmsr_insn : ℕ → ℕ → ℕ → R → R
  pub rdmsr_insn : ℕ → R → ℕ × ℕ
  pub rdtsc_insn : R → ℕ × ℕ
  pub kvm_features : R → ℕ
  pub elapse : R → R

-- Two halves in one word.
abbrev pub join_halves : ℕ × ℕ → ℕ
join_halves halves = bit_or (halves.0 <<< 32) halves.1

module _ {R : Type 0} (machine : Machine R) where
  unfoldable pub wrmsr : ℕ → ℕ → R → R
  wrmsr reg val = machine.wrmsr_insn reg (u32 (bit_and val 0xffff_ffff)) (u32 (val >>> 32))

  unfoldable pub rdmsr : ℕ → R → ℕ
  rdmsr reg r = join_halves (machine.rdmsr_insn reg r)

  unfoldable pub rdtsc_with_cpuid : R → ℕ
  rdtsc_with_cpuid r = join_halves (machine.rdtsc_insn r)
