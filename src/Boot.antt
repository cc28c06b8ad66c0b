-- ===== src/Boot.antt =====
-- src/bootparams.rs: what the boot loader has left in memory, a function from addresses to bytes.
pub mod Cmdline
use urchin.Prelude.{
  ℕ, zero, suc, ◌+◌, ◌*◌, ◌^◌, List, [], ◌∷◌, Option, none, some, Bool, ◌==◌, ltb, if◌then◌else◌,
  ◌>>=◌,
}
use urchin.Arch.Mptable.{word16, word32}

abbrev pub word64 : (ℕ → ℕ) → ℕ → ℕ
word64 memory a = word32 memory a + word32 memory (a + 4) * 2 ^ 32

pub record E820Entry : Type 0 where
  pub addr : ℕ
  pub size : ℕ
  pub entry_type : ℕ

-- The strings of `get_entry_type_str`.
pub data EntryType : Type 0 where
  usable reserved acpi nvs unusable reserved_kern unknown : EntryType

pub get_entry_type_str : E820Entry → EntryType
get_entry_type_str e =
    if e.entry_type == 1
    then usable
    else if e.entry_type == 2
    then reserved
    else if e.entry_type == 3
    then acpi
    else if e.entry_type == 4
    then nvs
    else if e.entry_type == 5
    then unusable
    else if e.entry_type == 128
    then reserved_kern
    else unknown

unfoldable pub get_boot_flag : (ℕ → ℕ) → ℕ → ℕ
get_boot_flag memory boot_params = word16 memory (boot_params + 0x01fe)

unfoldable pub get_header : (ℕ → ℕ) → ℕ → ℕ
get_header memory boot_params = word32 memory (boot_params + 0x0202)

pub get_version : (ℕ → ℕ) → ℕ → ℕ
get_version memory boot_params = word16 memory (boot_params + 0x0206)

-- The bytes of a slice.
abbrev pub slice_of : (ℕ → ℕ) → ℕ → ℕ → List ℕ
slice_of memory a zero = []
slice_of memory a (suc n) = memory a ∷ slice_of memory (a + 1) n

-- The loop that looks for the NUL, from the i-th character on.
pub nul_loop : ℕ → ℕ → (ℕ → ℕ) → ℕ → Option (List ℕ)
nul_loop zero i memory cmd_line_ptr = none
nul_loop (suc left) i memory cmd_line_ptr =
    let later = nul_loop left (i + 1) memory cmd_line_ptr in
    if memory (cmd_line_ptr + i) == 0 then some (slice_of memory cmd_line_ptr i) else later

unfoldable pub get_cmdline : (ℕ → ℕ) → ℕ → Option (List ℕ)
unfolding nul_loop
get_cmdline memory boot_params =
    let cmd_line_ptr = word32 memory (boot_params + 0x0228) in
    let cmd_line_size = word32 memory (boot_params + 0x0238) in
    nul_loop cmd_line_size 0 memory cmd_line_ptr

-- Entries of twenty bytes.
abbrev pub entries_at : (ℕ → ℕ) → ℕ → ℕ → List E820Entry
entries_at memory a zero = []
entries_at memory a (suc n) =
    record {
      addr = word64 memory a;
      size = word64 memory (a + 8);
      entry_type = word32 memory (a + 16);
    }
    ∷ entries_at memory (a + 20) n

pub get_e820 : (ℕ → ℕ) → ℕ → List E820Entry
get_e820 memory boot_params =
    entries_at memory (boot_params + 0x02d0) (memory (boot_params + 0x01e8))
