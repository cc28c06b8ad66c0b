-- ===== src/Devices/VirtioMmio/Registers.antt =====
-- The features pass the registers of 32 bits in two halves.
use urchin.Prelude.{
  ℕ, ◌+◌, ◌*◌, ◌/◌, ◌%◌, ◌^◌, ◌<◌, ◌≡◌, arith, ap, ap₂, ◌∙◌, bit_and, bit_or, u32, u64, ◌>>>◌,
}
use urchin.Prelude.Bits.{bit_and_low, bit_or_join}
use urchin.Devices.VirtioMmio.{Bus, VirtioMmio, get_available_features, set_enabled_features}

-- A virtio device by its specification: the register at 0x014 selects the half of the offered features that
-- is read at 0x010, and that at 0x024 the half of the accepted ones that is written at 0x020.
pub record IsDevice {R : Type 0} (bus : Bus R) (addr : ℕ) (offered : R → ℕ) (accepted : R → ℕ × ℕ)
    : Type 0 where
  pub offers_high :
      (r : R)
      → bus.read32 (u64 (addr + 0x010)) (bus.write32 (u64 (addr + 0x014)) 1 r) ≡ offered r / 2 ^ 32
  pub offers_low :
      (r : R)
      → bus.read32 (u64 (addr + 0x010)) (bus.write32 (u64 (addr + 0x014)) 0 r) ≡ offered r % 2 ^ 32
  pub offers_same : (v : ℕ) (r : R) → offered (bus.write32 (u64 (addr + 0x014)) v r) ≡ offered r
  pub accepts_high :
      (v : ℕ) (r : R)
      → accepted (bus.write32 (u64 (addr + 0x020)) v (bus.write32 (u64 (addr + 0x024)) 1 r))
        ≡ (v, (accepted r).1)
  pub accepts_low :
      (v : ℕ) (r : R)
      → accepted (bus.write32 (u64 (addr + 0x020)) v (bus.write32 (u64 (addr + 0x024)) 0 r))
        ≡ ((accepted r).0, v)

-- The driver reads the features that a device offers, all 64 bits, and has the device accept those that
-- it enables, each half in its place.
pub features_lem :
    {R : Type 0} (bus : Bus R) (offered : R → ℕ) (accepted : R → ℕ × ℕ) (d : VirtioMmio R)
    (features : ℕ)
    → IsDevice bus d.addr offered accepted
    → features < 2 ^ 64
    → ((get_available_features bus d).0 ≡ offered d.registers)
      × (accepted (set_enabled_features bus features d).registers
          ≡ (features / 2 ^ 32, features % 2 ^ 32))
unfolding get_available_features set_enabled_features
features_lem bus offered accepted d features law fits = (
  ap₂ (λ hi lo. bit_or (hi * 2 ^ 32) lo) (law.offers_high d.registers)
        (law.offers_low (bus.write32 (u64 (d.addr + 0x014)) 1 d.registers)
          ∙ ap (λ x. x % 2 ^ 32) (law.offers_same 1 d.registers))
      ∙ bit_or_join 32 (offered d.registers / 2 ^ 32) (offered d.registers % 2 ^ 32) (omega arith)
      ∙ omega arith,
  law.accepts_low _ _
      ∙ ap (λ (p : ℕ × ℕ). (p.0, u32 (bit_and features 0xffff_ffff))) (law.accepts_high _ _)
      ∙ ap₂ (λ (a b : ℕ). (a, b)) high low,
)
  where
    high : u32 (features >>> 32) ≡ features / 2 ^ 32
    high = omega arith

    low : u32 (bit_and features 0xffff_ffff) ≡ features % 2 ^ 32
    low = ap u32 (bit_and_low 32 features) ∙ omega arith
