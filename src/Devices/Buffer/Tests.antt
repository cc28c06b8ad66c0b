-- ===== src/Devices/Buffer/Tests.antt =====
-- Runs and instances.
use urchin.Prelude.{ℕ, ◌-◌, ◌^◌, ◌≡◌, refl, List, [], ◌∷◌, replicate}
use urchin.Devices.Buffer.{
  Layout, Buffer, ok, layout_error, panic, new, from_size_align, actual_size, of_layout,
}

abbrev blank : Layout → List ℕ
blank l = replicate l.size 0

abbrev at : Layout → ℕ
at l = 0x50_0000

-- The size of a buffer of size 0 wraps round to an allocation of 0 bytes.
outcomes :
    (actual_size 0 4096 ≡ 0)
    × (new at blank 64 0 ≡ panic)
    × (new at blank 64 48 ≡ layout_error)
    × (new at blank (2 ^ 64 - 1) 4096
        ≡ ok (record {
          buffer_ptr = 0x50_0000;
          size = 2 ^ 64 - 1;
          position = 0;
          layout = record { size = 0; align = 4096 };
          memory = [];
        }))
    × (actual_size 4097 4096 ≡ 8192)
unfolding new from_size_align actual_size of_layout
outcomes = (refl, refl, refl, refl, refl)

abbrev small : Buffer
small = record {
  buffer_ptr = 0;
  size = 4;
  position = 1;
  layout = record { size = 4; align = 4 };
  memory = 5 ∷ 6 ∷ 7 ∷ 8 ∷ [];
}
