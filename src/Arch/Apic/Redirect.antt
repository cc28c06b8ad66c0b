-- ===== src/Arch/Apic/Redirect.antt =====
-- What the entries of the I/O APIC are after the operations of the kernel.
use urchin.Prelude.{
  ℕ, zero, suc, ◌+◌, ◌<◌, ◌≤◌, ◌≡◌, ◌≢◌, arith, ◌∙◌, u8, ltb, ltb→lt, Bool-cases, inl, inr,
}
use urchin.Arch.Io.{Machine}
use urchin.Arch.Apic.{
  Apic, ioapic_addr, ioapic_reg_low, ioapic_reg_high, ioapic_write, enable_irq, disable_irq,
  mask_loop, vector_irq_base,
}

-- The I/O APIC by its documentation: a write to the first address selects a register, and a write
-- sixteen bytes behind it sets that register and no other.
pub record IsIoapic {R : Type 0} (machine : Machine R) (entries : R → ℕ → ℕ) : Type 0 where
  pub stores :
      (reg v : ℕ) (r : R)
      → entries (machine.write32 (ioapic_addr + 0x10) v (machine.write32 ioapic_addr reg r)) reg ≡ v
  pub keeps :
      (reg v j : ℕ) (r : R)
      → j ≢ reg
      → entries (machine.write32 (ioapic_addr + 0x10) v (machine.write32 ioapic_addr reg r)) j
        ≡ entries r j

module _ {R : Type 0} (machine : Machine R) (entries : R → ℕ → ℕ)
    (ioapic : IsIoapic machine entries) where
  -- A redirection entry: its two words.
  pub record IsEntry (irq low high : ℕ) (a : Apic R) : Type 0 where
    pub low_word : entries a.machine (ioapic_reg_low irq) ≡ low
    pub high_word : entries a.machine (ioapic_reg_high irq) ≡ high

  abbrev write_entry : ℕ → ℕ → Apic R → Apic R
  write_entry irq v a =
      ioapic_write machine (ioapic_reg_low irq) v (ioapic_write machine (ioapic_reg_high irq) 0 a)

  write_entry_self : (irq v : ℕ) (a : Apic R) → irq < 120 → IsEntry irq v 0 (write_entry irq v a)
  unfolding ioapic_write ioapic_reg_low ioapic_reg_high
  write_entry_self irq v a h = record {
    low_word = ioapic.stores _ v _;
    high_word = ioapic.keeps _ v _ _ (λ e. omega (arith, e)) ∙ ioapic.stores _ 0 _;
  }

  write_entry_other :
      (irq v : ℕ) (a : Apic R)
      → irq < 120
      → (other low high : ℕ) → other < 120
      → other ≢ irq
      → IsEntry other low high a
      → IsEntry other low high (write_entry irq v a)
  unfolding ioapic_write ioapic_reg_low ioapic_reg_high
  write_entry_other irq v a h other low high h' ne e = record {
    low_word =
        ioapic.keeps _ v _ _ (λ p. ne (omega (arith, p)))
        ∙ ioapic.keeps _ 0 _ _ (λ p. omega (arith, p))
        ∙ e.low_word;
    high_word =
        ioapic.keeps _ v _ _ (λ p. omega (arith, p))
        ∙ ioapic.keeps _ 0 _ _ (λ p. ne (omega (arith, p)))
        ∙ e.high_word;
  }

  -- Below 120 interrupt lines, where the number of a register fits a byte: enabling a line sends it to
  -- the vector 48 behind its number, disabling it masks it, and both leave the other lines.
  pub enable_disable_lem :
      (irq : ℕ) (a : Apic R)
      → irq < 120
      → IsEntry irq (vector_irq_base + irq) 0 (enable_irq machine irq a)
        × IsEntry irq 0x10000 0 (disable_irq machine irq a)
        × ((other low high : ℕ)
            → other < 120
            → other ≢ irq
            → IsEntry other low high a
            → IsEntry other low high (enable_irq machine irq a)
              × IsEntry other low high (disable_irq machine irq a))
  unfolding enable_irq disable_irq
  enable_disable_lem irq a h = (
    write_entry_self irq (vector_irq_base + irq) a h,
    write_entry_self irq 0x10000 a h,
    λ other low high h' ne e. (
      write_entry_other irq (vector_irq_base + irq) a h other low high h' ne e,
      write_entry_other irq 0x10000 a h other low high h' ne e,
    ),
  )

  mask_loop_lem :
      (num i : ℕ) (a : Apic R)
      → i + num ≤ 120
      → (irq : ℕ) → irq < i + num
      → (irq < i → IsEntry irq 0x10000 0 a)
      → IsEntry irq 0x10000 0 (mask_loop machine num i a)
  unfolding mask_loop
  mask_loop_lem zero i a small irq lt before = before (omega arith)
  mask_loop_lem (suc num) i a small irq lt before =
      rw byte
        (mask_loop_lem num (i + 1) (write_entry i 0x10000 a) (omega arith) irq (omega arith) now)
    where
      byte : u8 i ≡ i
      byte = omega arith

      now : irq < i + 1 → IsEntry irq 0x10000 0 (write_entry i 0x10000 a)
      now below = elim (Bool-cases (ltb irq i)) [
        | inl lt' ↦
            let less : irq < i = ltb→lt irq i lt' in
            write_entry_other i 0x10000 a (omega arith) irq 0x10000 0 (omega arith)
              (λ e. omega (arith, e)) (before less)
        | inr ge ↦
            let at : irq ≡ i = ground arith in rw at (write_entry_self i 0x10000 a (omega arith))
      ]

  -- The loop of `ioapic_init` masks every line of an I/O APIC of at most 120 lines.
  pub mask_loop-masks :
      (num : ℕ) (a : Apic R)
      → num ≤ 120
      → (irq : ℕ) → irq < num
      → IsEntry irq 0x10000 0 (mask_loop machine num 0 a)
  mask_loop-masks num a small irq lt =
      mask_loop_lem num 0 a (omega arith) irq (omega arith) (λ h. absurd (omega arith))
