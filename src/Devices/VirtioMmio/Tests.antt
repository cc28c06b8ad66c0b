-- ===== src/Devices/VirtioMmio/Tests.antt =====
-- The command line and the registers of src/devices/virtio/mmio.rs on two devices, as in
-- "console=ttyS0 virtio_mmio.device=4k@0xd0000000:5 virtio_mmio.device=4k@0xd0001000:6 ".
use urchin.Prelude.{
  ℕ, ◌/◌, ◌%◌, ◌^◌, ◌≡◌, ◌≢◌, refl, arith, List, [], ◌∷◌, ◌++◌, some, All, false, ◌==◌,
  if◌then◌else◌,
}
use urchin.Devices.VirtioMmio.{Bus, VirtioMmio}
use urchin.Devices.VirtioMmio.Registers.{IsDevice}
use urchin.Devices.VirtioMmio.Cmdline.{parse}
use urchin.Devices.VirtioMmio.Cmdline.Text.{Placement, IsPlacement, kilo, devices_text}
use urchin.Devices.VirtioMmio.Cmdline.Reads.{parse-devices_text}

abbrev pub first_device : Placement
first_device = record {
  size_digits = 4 ∷ [];
  size_unit = kilo;
  addr_digits = 13 ∷ 0 ∷ 0 ∷ 0 ∷ 0 ∷ 0 ∷ 0 ∷ 0 ∷ [];
  irq_digits = 5 ∷ [];
}

abbrev pub second_device : Placement
second_device = record {
  size_digits = 4 ∷ [];
  size_unit = kilo;
  addr_digits = 13 ∷ 0 ∷ 0 ∷ 0 ∷ 1 ∷ 0 ∷ 0 ∷ 0 ∷ [];
  irq_digits = 6 ∷ [];
}

pub first_device-IsPlacement : IsPlacement first_device
first_device-IsPlacement = record {
  size_ok = ground arith;
  addr_ok = ground arith;
  irq_ok = ground arith;
}

pub second_device-IsPlacement : IsPlacement second_device
second_device-IsPlacement = record {
  size_ok = ground arith;
  addr_ok = ground arith;
  irq_ok = ground arith;
}

-- "console=ttyS0 "
abbrev pub console_text : List ℕ
console_text = 99 ∷ 111 ∷ 110 ∷ 115 ∷ 111 ∷ 108 ∷ 101 ∷ 61 ∷ 116 ∷ 116 ∷ 121 ∷ 83 ∷ 48 ∷ 32 ∷ []

pub console_text-clean : All (λ c. c ≢ 118) console_text
console_text-clean = ground arith

parse_second :
    parse (console_text ++ devices_text (first_device ∷ second_device ∷ [])) 1
    ≡ some (0xd000_1000, 4096, 6)
parse_second =
    parse-devices_text console_text (first_device ∷ second_device ∷ []) 1 second_device
      console_text-clean (first_device-IsPlacement, (second_device-IsPlacement, tt)) refl

-- A device at 0xd0000000: the half selected of what it offers, that of what it accepts, and the halves
-- accepted, and the status.
pub record Selectors : Type 0 where
  pub device_half : ℕ
  pub driver_half : ℕ
  pub accepted : ℕ × ℕ
  pub status : ℕ

abbrev pub offered_features : ℕ
offered_features = 0x1_3000_8023

abbrev pub feature_bus : Bus Selectors
feature_bus = record {
  read32 = λ addr r.
      if addr == 0xd000_0070
      then r.status
      else if r.device_half == 1
      then offered_features / 2 ^ 32
      else offered_features % 2 ^ 32;
  read8 = λ addr r. 0;
  write32 = λ addr v r.
      if addr == 0xd000_0014
      then record r { device_half = v }
      else if addr == 0xd000_0024
      then record r { driver_half = v }
      else if addr == 0xd000_0070
      then record r { status = v }
      else if r.driver_half == 1
      then record r { accepted = (v, r.accepted.1) }
      else record r { accepted = (r.accepted.0, v) };
}

abbrev pub feature_device : VirtioMmio Selectors
feature_device = record {
  addr = 0xd000_0000;
  size = 4096;
  irq = 5;
  indirect_buf_cap = false;
  event_idx_cap = false;
  registers = record { device_half = 0; driver_half = 0; accepted = (0, 0); status = 0 };
}

pub feature_bus-IsDevice :
    IsDevice feature_bus 0xd000_0000 (λ r. offered_features) (λ r. r.accepted)
feature_bus-IsDevice = record {
  offers_high = λ r. refl;
  offers_low = λ r. refl;
  offers_same = λ v r. refl;
  accepts_high = λ v r. refl;
  accepts_low = λ v r. refl;
}
