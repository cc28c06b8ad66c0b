-- ===== src/Devices/VirtioNet/Negotiate.antt =====
-- The negotiation of features by the network driver, over the registers of the MMIO transport.
use urchin.Prelude.{
  ℕ, ◌+◌, ◌/◌, ◌%◌, ◌^◌, ◌≡◌, refl, arith, ap, ◌∙◌, some, true, ◌==◌, bit_and, bit_or, u8, u64,
  check_below, of_check_below,
}
use urchin.Prelude.Bits.{bit_and_le}
use urchin.Devices.VirtioMmio.{
  Bus, VirtioMmio, read_reg, write_reg, get_available_features, set_enabled_features, mmio_device,
}
use urchin.Devices.VirtioMmio.Registers.{IsDevice, features_lem}
use urchin.Devices.VirtioNet.{drv_features, has_feature, negotiate}

-- The status register at 0x070 keeps what is written to it, and has nothing to do with the features.
pub record KeepsStatus {R : Type 0} (bus : Bus R) (addr : ℕ) (offered : R → ℕ)
    (accepted : R → ℕ × ℕ) : Type 0 where
  pub status_read :
      (v : ℕ) (r : R) → bus.read32 (u64 (addr + 0x070)) (bus.write32 (u64 (addr + 0x070)) v r) ≡ v
  pub status_offered : (v : ℕ) (r : R) → offered (bus.write32 (u64 (addr + 0x070)) v r) ≡ offered r
  pub status_accepted :
      (v : ℕ) (r : R) → accepted (bus.write32 (u64 (addr + 0x070)) v r) ≡ accepted r

features_ok : check_below 256 (λ x. bit_and (u8 (bit_or x 0x08)) 0x08 == 0x08) ≡ true
unfolding check_below
features_ok = refl

module _ {R : Type 0} (bus : Bus R) (offered : R → ℕ) (accepted : R → ℕ × ℕ) (d : VirtioMmio R)
    (law : IsDevice bus d.addr offered accepted)
    (status : KeepsStatus bus d.addr offered accepted) where
  abbrev set_status : ℕ → VirtioMmio R → VirtioMmio R
  set_status = write_reg bus 0x070

  abbrev get_status : VirtioMmio R → ℕ
  get_status s = u8 (read_reg bus 0x070 s)

  abbrev started : VirtioMmio R
  started =
      let s₁ = set_status 0 d in
      let s₂ = set_status (bit_or (get_status s₁) 0x01) s₁ in
      set_status (bit_or (get_status s₂) 0x02) s₂

  abbrev features : ℕ
  features = bit_and (get_available_features bus started).0 drv_features

  abbrev with_flags : VirtioMmio R
  with_flags = record (get_available_features bus started).1 {
    indirect_buf_cap = has_feature features 0x10000000;
    event_idx_cap = has_feature features 0x20000000;
  }

  abbrev enabled : VirtioMmio R
  enabled = set_enabled_features bus features with_flags

  abbrev negotiated : VirtioMmio R
  negotiated = set_status (bit_or (get_status enabled) 0x08) enabled

  negotiate_returns : negotiate (mmio_device bus) d ≡ some (features, negotiated)
  unfolding negotiate mmio_device get_available_features set_enabled_features
  negotiate_returns =
      let kept : get_status negotiated ≡ u8 (bit_or (get_status enabled) 0x08) =
        ap u8 (status.status_read (bit_or (get_status enabled) 0x08) enabled.registers) in
      let test : (bit_and (get_status negotiated) 0x08 == 0x08) ≡ true =
        ap (λ x. bit_and x 0x08 == 0x08) kept
        ∙ of_check_below 256 (λ x. bit_and (u8 (bit_or x 0x08)) 0x08 == 0x08) (get_status enabled)
            features_ok (omega arith) in
      rw test refl

  features_are : features ≡ bit_and (offered d.registers) drv_features
  features_are =
      ap (λ x. bit_and x drv_features)
        ((features_lem bus offered accepted started 0 law (omega arith)).0 ∙ unchanged)
    where
      unchanged : offered started.registers ≡ offered d.registers
      unchanged = status.status_offered _ _ ∙ status.status_offered _ _ ∙ status.status_offered _ _

  -- With a device that keeps its status, the negotiation succeeds: the features in use are those that the
  -- device offers and the driver knows, and the device has accepted these and no others.
  pub negotiate_lem :
      (s : VirtioMmio R) × (negotiate (mmio_device bus) d
        ≡ some (bit_and (offered d.registers) drv_features, s))
      × (accepted s.registers ≡ (
        bit_and (offered d.registers) drv_features / 2 ^ 32,
        bit_and (offered d.registers) drv_features % 2 ^ 32,
      ))
  unfolding set_enabled_features get_available_features
  negotiate_lem = (
    negotiated,
    negotiate_returns ∙ ap (λ f. some (f, negotiated)) features_are,
    status.status_accepted _ _
        ∙ (features_lem bus offered accepted with_flags features law
            (omega (arith, bit_and_le (get_available_features bus started).0 drv_features))).1
        ∙ ap (λ f. (f / 2 ^ 32, f % 2 ^ 32)) features_are,
  )
