-- ===== src/Devices/VirtioMmio/Cmdline.antt =====
-- `VirtioMMIO::new`: where a device lies, from the kernel's command line. A text is the list of its bytes:
-- the patterns and the digits are ASCII, and the bytes of other characters are passed over as these are.
pub mod Text
pub mod Digits
pub mod Reads
use urchin.Prelude.{
  ℕ, zero, suc, ◌+◌, ◌-◌, ◌*◌, ◌%◌, ◌^◌, List, [], ◌∷◌, ◌++◌, Option, none, some, Bool, true, false,
  ◌&&◌, ◌||◌, ◌==◌, leb, if◌then◌else◌, length, take, drop, u8, u64, usize, ◌>>=◌,
}
use urchin.Devices.VirtioMmio.{Bus, VirtioMmio}

-- `starts_with`, `find` and the slice of a range, of the standard library.
abbrev pub starts_with : List ℕ → List ℕ → Bool
starts_with [] s = true
starts_with (p ∷ ps) [] = false
starts_with (p ∷ ps) (c ∷ s) = (p == c) && starts_with ps s

abbrev pub find : List ℕ → List ℕ → Option ℕ
find pattern [] = if starts_with pattern [] then some 0 else none
find pattern (c ∷ s) =
    let rest = find pattern s in
    if starts_with pattern (c ∷ s) then some 0 else (rest >>= λ i. some (suc i))

abbrev pub substring : ℕ → ℕ → List ℕ → List ℕ
substring from to s = take (to - from) (drop from s)

-- "virtio_mmio.device="
abbrev pub keyphrase : List ℕ
keyphrase =
    118 ∷ 105 ∷ 114 ∷ 116 ∷ 105 ∷ 111 ∷ 95 ∷ 109 ∷ 109 ∷ 105 ∷ 111 ∷ 46 ∷ 100 ∷ 101 ∷ 118 ∷ 105 ∷ 99
    ∷ 101 ∷ 61 ∷ []

-- "@0x"
abbrev pub at_hex : List ℕ
at_hex = 64 ∷ 48 ∷ 120 ∷ []

-- The start of the size: behind the key phrase, that many times found.
pub size_loop : ℕ → ℕ → List ℕ → Option ℕ
size_loop zero keyidx cmdline = some keyidx
size_loop (suc rounds) keyidx cmdline = find keyphrase (drop keyidx cmdline) >>= λ j.
    size_loop rounds (keyidx + (j + length keyphrase)) cmdline

abbrev pub is_digit : ℕ → Bool
is_digit c = leb 48 c && leb c 57

pub size_step : ℕ → ℕ → ℕ
size_step size_val c =
    if is_digit c
    then usize (size_val * 10 + (c - 48))
    else if (c == 107) || (c == 75)
    then usize (size_val * 1024)
    else if (c == 109) || (c == 77)
    then usize (size_val * 1024 * 1024)
    else size_val

pub addr_step : ℕ → ℕ → ℕ
addr_step addr_val c =
    if is_digit c
    then u64 (addr_val * 16 + (c - 48))
    else if leb 97 c && leb c 102
    then u64 (addr_val * 16 + (c - 87))
    else if leb 65 c && leb c 70
    then u64 (addr_val * 16 + (c - 55))
    else addr_val

pub irq_step : ℕ → ℕ → ℕ
irq_step irq_val c = if is_digit c then u8 (irq_val * 10 + (c - 48)) else irq_val

-- A loop over the characters of a text.
abbrev pub each_char : (ℕ → ℕ → ℕ) → ℕ → List ℕ → ℕ
each_char step v [] = v
each_char step v (c ∷ s) = each_char step (step v c) s

-- The address, the size and the interrupt line, of the placement that starts at an index.
pub parse_at : List ℕ → ℕ → Option (ℕ × ℕ × ℕ)
unfolding size_step addr_step irq_step
parse_at cmdline size_idx = do
  at ← find at_hex (drop size_idx cmdline)
  let addr_idx = size_idx + at + 3
  colon ← find (58 ∷ []) (drop addr_idx cmdline)
  let irq_idx = addr_idx + colon + 1
  let tail_idx : ℕ = elim (find (32 ∷ []) (drop irq_idx cmdline)) [
    | none ↦ length cmdline
    | some space ↦ irq_idx + space
  ]
  some (
    each_char addr_step 0 (substring addr_idx (irq_idx - 1) cmdline),
    each_char size_step 0 (substring size_idx (addr_idx - 3) cmdline),
    each_char irq_step 0 (substring irq_idx tail_idx cmdline),
  )

-- Those of the device of a number; `none` is the error "virtio-mmio is not found".
pub parse : List ℕ → ℕ → Option (ℕ × ℕ × ℕ)
unfolding size_loop parse_at
parse cmdline idx = size_loop (idx + 1) 0 cmdline >>= parse_at cmdline

-- The two errors.
pub data NewError : Type 0 where
  not_found : NewError
  invalid_device : NewError

pub data NewResult (R : Type 0) : Type 0 where
  ok : VirtioMmio R → NewResult R
  err : NewError → NewResult R

-- The device must have the magic number and the version.
unfoldable pub new : {R : Type 0} → Bus R → List ℕ → ℕ → R → NewResult R
unfolding parse
new bus cmdline idx r = elim (parse cmdline idx) [
  | none ↦ err not_found
  | some (addr_val, size_val, irq_val) ↦
      if bus.read32 addr_val r == 0x7472_6976
      then (if bus.read32 (u64 (addr_val + 0x004)) r == 0x2
          then ok (record {
            addr = addr_val;
            size = size_val;
            irq = irq_val;
            indirect_buf_cap = false;
            event_idx_cap = false;
            registers = r;
          })
          else err invalid_device)
      else err invalid_device
]
