-- ===== src/Arch/Io/Halves.antt =====
-- A word survives its two halves.
use urchin.Prelude.{
  ℕ, ◌<◌, ◌%◌, ◌*◌, ◌/◌, ◌^◌, ◌≡◌, arith, ap, ap₂, ◌∙◌, bit_and, bit_or, u32, ◌>>>◌,
}
use urchin.Prelude.Bits.{bit_and_low, bit_or_join}
use urchin.Arch.Io.{Machine, join_halves, wrmsr, rdmsr}

pub join_halves-split :
    (val : ℕ) → val < 2 ^ 64 → join_halves (u32 (val >>> 32), u32 (bit_and val 0xffff_ffff)) ≡ val
join_halves-split val h =
    ap₂ (λ hi lo. bit_or (hi * 2 ^ 32) lo) high low
    ∙ bit_or_join 32 (val / 2 ^ 32) (val % 2 ^ 32) (omega arith)
    ∙ omega arith
  where
    high : u32 (val >>> 32) ≡ val / 2 ^ 32
    high = omega arith

    low : u32 (bit_and val 0xffff_ffff) ≡ val % 2 ^ 32
    low = ap u32 (bit_and_low 32 val) ∙ omega arith

-- On a machine whose register holds the two halves that were written to it, `rdmsr` reads back the word
-- that `wrmsr` wrote.
pub rdmsr-wrmsr :
    {R : Type 0} (machine : Machine R)
    → ((reg lo hi : ℕ) (r : R) → machine.rdmsr_insn reg (machine.wrmsr_insn reg lo hi r) ≡ (hi, lo))
    → (reg val : ℕ) (r : R) → val < 2 ^ 64
    → rdmsr machine reg (wrmsr machine reg val r) ≡ val
unfolding rdmsr wrmsr
rdmsr-wrmsr machine holds reg val r h =
    ap join_halves (holds reg (u32 (bit_and val 0xffff_ffff)) (u32 (val >>> 32)) r)
    ∙ join_halves-split val h
