-- ===== src/Arch/Apic/Entries.antt =====
-- The descriptor table leads each vector to its handler.
use urchin.Prelude.{
  ℕ, zero, suc, ◌+◌, ◌*◌, ◌/◌, ◌%◌, ◌^◌, ◌<◌, ◌≤◌, ◌≡◌, refl, arith, ap, ◌∙◌, List, length,
  length-set, get_or, set, get_or-set_self, get_or-set_ne, u64, bit_and, ltb, ltb→lt, Bool-cases,
  inl, inr,
}
use urchin.Prelude.Bits.{bit_and_low, bit_and_high}
use urchin.Arch.Apic.{IdtEntry, new_entry, set_offset, idt_loop}

-- The address that the processor takes from a descriptor.
abbrev pub entry_address : IdtEntry → ℕ
entry_address e = e.offsetl + e.offsetm * 2 ^ 16 + e.offseth * 2 ^ 32

-- A present interrupt gate into the kernel's code segment.
pub record IsGate (address : ℕ) (e : IdtEntry) : Type 0 where
  pub at : entry_address e ≡ address
  pub present : e.attribute ≡ 0x8e
  pub kernel_cs : e.selector ≡ 8

set_offset-IsGate :
    (offset : ℕ) (e : IdtEntry) → offset < 2 ^ 64 → IsGate offset (set_offset offset e)
unfolding set_offset
set_offset-IsGate offset e h = record { at = whole; present = refl; kernel_cs = refl }
  where
    low : bit_and offset 0xffff ≡ offset % 2 ^ 16
    low = bit_and_low 16 offset

    mid : bit_and offset 0xffff_0000 ≡ offset / 2 ^ 16 % 2 ^ 16 * 2 ^ 16
    mid = bit_and_high 16 offset 0xffff ∙ ap (λ x. x * 2 ^ 16) (bit_and_low 16 (offset / 2 ^ 16))

    high : bit_and offset 0xffff_ffff_0000_0000 ≡ offset / 2 ^ 32 % 2 ^ 32 * 2 ^ 32
    high =
        bit_and_high 32 offset 0xffff_ffff ∙ ap (λ x. x * 2 ^ 32) (bit_and_low 32 (offset / 2 ^ 32))

    whole : entry_address (set_offset offset e) ≡ offset
    whole = omega (arith, low, mid, high, h)

-- The rest of the loop fills the entries from `i` on, and leaves those before.
idt_loop_lem :
    (left i base : ℕ) (idt : List IdtEntry)
    → i + left ≤ length idt
    → (j : ℕ) → j < i + left
    → ((j < i) → IsGate (u64 (base + 0x10 * j)) (get_or idt j new_entry))
    → IsGate (u64 (base + 0x10 * j)) (get_or (idt_loop left i base idt) j new_entry)
unfolding idt_loop
idt_loop_lem zero i base idt fits j lt before = before (omega arith)
idt_loop_lem (suc left) i base idt fits j lt before =
    idt_loop_lem left (i + 1) base idt' (omega (arith, length-set idt i gate)) j (omega arith) now
  where
    gate : IdtEntry
    gate = set_offset (u64 (base + 0x10 * i)) (get_or idt i new_entry)

    idt' : List IdtEntry
    idt' = set idt i gate

    now : j < i + 1 → IsGate (u64 (base + 0x10 * j)) (get_or idt' j new_entry)
    now below = elim (Bool-cases (ltb j i)) [
      | inl lt' ↦
          rw (get_or-set_ne idt i j gate new_entry (omega (arith, ltb→lt j i lt')))
            (before (ltb→lt j i lt'))
      | inr ge ↦
          let at : j ≡ i = ground arith in
          rw (at, get_or-set_self idt i gate new_entry (omega arith))
            (set_offset-IsGate (u64 (base + 0x10 * i)) (get_or idt i new_entry) (omega arith))
    ]

-- Once the table is filled, the processor enters the handler code of a vector sixteen bytes behind that
-- of the vector before, by a gate that is present and leads into the kernel's segment.
pub idt_loop-IsGate :
    (base : ℕ) (idt : List IdtEntry)
    → length idt ≡ 256
    → (vector : ℕ) → vector < 256
    → IsGate (u64 (base + 0x10 * vector)) (get_or (idt_loop 256 0 base idt) vector new_entry)
idt_loop-IsGate base idt size vector lt =
    idt_loop_lem 256 0 base idt (omega (arith, size)) vector (omega arith)
      (λ h. absurd (omega arith))
