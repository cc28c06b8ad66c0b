-- ===== src/Mem/Tests.antt =====
-- Runs and instances.
use urchin.Prelude.{◌+◌, ◌≡◌, refl, arith, [], ◌∷◌}
use urchin.Prelude.Int.{pos, negsuc}
use urchin.Mem.{
  Memory, load, memcmp, memcmp_loop, memset, memset_loop, copy_up, copy_down, memcpy, memmove,
}
use urchin.Mem.Copy.{IsFilled, memmove-IsFilled}

abbrev bytes : Memory
bytes = 1 ∷ 2 ∷ 3 ∷ 4 ∷ 5 ∷ 1 ∷ 2 ∷ 9 ∷ []

-- A `memcpy` onto an area behind the source that overlaps it repeats the first bytes.
runs :
    (memmove 2 0 4 bytes ≡ 1 ∷ 2 ∷ 1 ∷ 2 ∷ 3 ∷ 4 ∷ 2 ∷ 9 ∷ [])
    × (memcpy 2 0 4 bytes ≡ 1 ∷ 2 ∷ 1 ∷ 2 ∷ 1 ∷ 2 ∷ 2 ∷ 9 ∷ [])
    × (memset 6 0x1ff 2 bytes ≡ 1 ∷ 2 ∷ 3 ∷ 4 ∷ 5 ∷ 1 ∷ 255 ∷ 255 ∷ [])
    × (memcmp bytes 0 5 3 ≡ negsuc 5)
    × (memcmp bytes 0 5 2 ≡ pos 0)
unfolding memmove memcpy memset memcmp memset_loop memcmp_loop copy_up copy_down
runs = (refl, refl, refl, refl, refl)

memmove-IsFilled_example : IsFilled 2 0 4 (λ k. load bytes (0 + k)) bytes (memmove 2 0 4 bytes)
memmove-IsFilled_example = memmove-IsFilled 2 0 4 bytes (omega arith)
