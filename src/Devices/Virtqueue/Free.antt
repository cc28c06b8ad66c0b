-- ===== src/Devices/Virtqueue/Free.antt =====
-- `get_avail_free_size`: how many descriptors the device does not have.
use urchin.Prelude.{ℕ, ◌+◌, ◌-◌, ◌%◌, ◌^◌, ◌≤◌, ◌<◌, ◌≡◌, arith}
use urchin.Devices.Virtqueue.{Virtqueue, get_avail_free_size}

-- The driver has made `pushed` descriptors available in all, and the device has finished `done`.
pub record Counts (pushed done : ℕ) (q : Virtqueue) : Type 0 where
  pub avail : q.avail_idx ≡ pushed % 2 ^ 16
  pub used : q.used_idx ≡ done % 2 ^ 16
  pub order : done ≤ pushed
  pub fits : pushed ≤ done + q.size
  pub small : q.size ≤ 2 ^ 15

-- While the available index, modulo 2 ^ 16, is not below the used index, the free size is the size
-- less the descriptors that the device has.
pub get_avail_free_size_lem :
    (pushed done : ℕ) (q : Virtqueue)
    → Counts pushed done q
    → done % 2 ^ 16 ≤ pushed % 2 ^ 16
    → get_avail_free_size q ≡ q.size - (pushed - done)
unfolding get_avail_free_size
get_avail_free_size_lem pushed done q c h = ground arith

-- Once the available index has wrapped past the used index, the free size is 2 ^ 16 less the
-- descriptors that the device has, which is more than the queue has free.
pub get_avail_free_size_after_wrap :
    (pushed done : ℕ) (q : Virtqueue)
    → Counts pushed done q
    → pushed % 2 ^ 16 < done % 2 ^ 16
    → (get_avail_free_size q ≡ 2 ^ 16 - (pushed - done))
      × (q.size - (pushed - done) < get_avail_free_size q)
unfolding get_avail_free_size
get_avail_free_size_after_wrap pushed done q c h = ground arith
