-- ===== src/Kernel/Tests.antt =====
-- The interface of the samples, 192.168.0.10/24, on empty tables.
use urchin.Prelude.{
  ℕ, zero, suc, ◌-◌, ◌<◌, ◌≡◌, ◌≢◌, refl, arith, List, [], ◌∷◌, ◌++◌, some, length, replicate, ◌==◌,
  leb, get_or, All, if◌then◌else◌, ◌>>=◌,
}
use urchin.Boot.{get_cmdline}
use urchin.Boot.Cmdline.{IsText}
use urchin.Devices.VirtioMmio.Cmdline.{parse}
use urchin.Devices.VirtioMmio.Cmdline.Text.{devices_text}
use urchin.Devices.VirtioMmio.Tests.{
  first_device, second_device, console_text, console_text-clean, first_device-IsPlacement,
  second_device-IsPlacement,
}
use urchin.Kernel.Devices.{booted_devices}
use urchin.Net.Ipv4Address.{ipv4_ord}
use urchin.Net.Fib.{Tables}

abbrev pub blank_tables : Tables
blank_tables = record {
  ipv4_fib_index = replicate 33 [];
  ipv6_fib_index = replicate 129 [];
  ipv4_adjacent = [];
  ipv6_adjacent = [];
  mac_addr_table = [];
}

-- The boot parameters at 0x1000 point to the text at 0x2000.
abbrev pub boot_text : List ℕ
boot_text = console_text ++ devices_text (first_device ∷ second_device ∷ [])

abbrev pub boot_memory : ℕ → ℕ
boot_memory a =
    if a == 0x1229
    then 0x20
    else if a == 0x1239
    then 1
    else if leb 0x2000 a
    then get_or boot_text (a - 0x2000) 0
    else 0

no_nul_in : (s : List ℕ) → All (λ c. c ≢ 0) s → (i : ℕ) → i < length s → get_or s i 0 ≢ 0
no_nul_in [] h i lt = absurd (omega arith)
no_nul_in (c ∷ s) h zero lt = h.0
no_nul_in (c ∷ s) h (suc i) lt = no_nul_in s h.1 i (omega arith)

pub boot_memory-IsText : IsText boot_memory 0x2000 (length boot_text)
boot_memory-IsText = record {
  no_nul = λ i lt. ground (arith, no_nul_in boot_text (ground arith) i lt);
  nul_behind = refl;
}

booted_devices_example :
    (get_cmdline boot_memory 0x1000 >>= λ cmd. parse cmd 1) ≡ some (0xd000_1000, 4096, 6)
booted_devices_example =
    booted_devices boot_memory 0x1000 (length boot_text) console_text
      (first_device ∷ second_device ∷ []) 1 second_device (omega arith) boot_memory-IsText refl
      console_text-clean (first_device-IsPlacement, (second_device-IsPlacement, tt)) refl
