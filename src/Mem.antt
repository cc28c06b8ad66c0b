-- ===== src/Mem.antt =====
-- `memcmp`, `bcmp`, `memset`, `memcpy` and `memmove` of src/lib.rs, on a memory of bytes. A pointer is
-- an index; the callers give areas that lie in the memory.
pub mod Copy
pub mod Compare
mod Tests
use urchin.Prelude.{
  ℕ, zero, suc, ◌+◌, List, Bool, true, false, not, ◌==◌, ltb, if◌then◌else◌, get_or, set, u8,
}
use urchin.Prelude.Int.{ℤ, pos, sub_ℕ}

abbrev pub Memory : Type 0
Memory = List ℕ

abbrev pub load : Memory → ℕ → ℕ
load m p = get_or m p 0

-- The loop of `memcmp` at offset `i`, with `left` bytes to go.
pub memcmp_loop : Memory → ℕ → ℕ → ℕ → ℕ → ℤ
memcmp_loop m s1 s2 zero i = pos 0
memcmp_loop m s1 s2 (suc left) i =
    let a = load m (s1 + i) in
    let b = load m (s2 + i) in
    let rest = memcmp_loop m s1 s2 left (i + 1) in if not (a == b) then sub_ℕ a b else rest

pub memcmp : Memory → ℕ → ℕ → ℕ → ℤ
memcmp m s1 s2 n = memcmp_loop m s1 s2 n 0

pub bcmp : Memory → ℕ → ℕ → ℕ → ℤ
bcmp m s1 s2 n = memcmp m s1 s2 n

pub memset_loop : ℕ → ℕ → ℕ → ℕ → Memory → Memory
memset_loop s c zero i m = m
memset_loop s c (suc left) i m = memset_loop s c left (i + 1) (set m (s + i) (u8 c))

pub memset : ℕ → ℕ → ℕ → Memory → Memory
memset s c n m = memset_loop s c n 0 m

-- Copying from offset `i` up, `left` bytes.
pub copy_up : ℕ → ℕ → ℕ → ℕ → Memory → Memory
copy_up dest src zero i m = m
copy_up dest src (suc left) i m =
    copy_up dest src left (i + 1) (set m (dest + i) (load m (src + i)))

-- Copying from below offset `i` down to 0.
pub copy_down : ℕ → ℕ → ℕ → Memory → Memory
copy_down dest src zero m = m
copy_down dest src (suc i) m = copy_down dest src i (set m (dest + i) (load m (src + i)))

pub memcpy : ℕ → ℕ → ℕ → Memory → Memory
memcpy dest src n m = copy_up dest src n 0 m

pub memmove : ℕ → ℕ → ℕ → Memory → Memory
memmove dest src n m = if ltb src dest then copy_down dest src n m else copy_up dest src n 0 m
