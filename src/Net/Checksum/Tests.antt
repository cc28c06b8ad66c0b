-- ===== src/Net/Checksum/Tests.antt =====
-- Sums that carry.
use urchin.Prelude.{◌%◌, ◌≡◌, refl}
use urchin.Net.Checksum.{finish}

-- Sums with carries out of 16 bits and out of the first fold.
carries : (finish 0x1_ffff % 65536 ≡ 0xfffe) × (finish 0xffff_ffff % 65536 ≡ 0)
unfolding finish
carries = (refl, refl)
