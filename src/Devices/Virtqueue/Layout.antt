-- ===== src/Devices/Virtqueue/Layout.antt =====
-- Where the parts of a queue lie in its allocation.
use urchin.Prelude.{◌+◌, ◌*◌, ◌%◌, ◌^◌, ◌≤◌, ◌<◌, ◌≡◌, arith}
use urchin.Devices.Virtqueue.{
  Virtqueue, align, alloc_size, get_descriptor_addr, get_avail_addr, get_used_addr,
}

-- The descriptors, the available ring and the used ring lie one behind the other in the allocation,
-- each aligned as virtio wants it, if the allocation is page aligned and inside the address space.
pub parts_lem :
    (q : Virtqueue)
    → 1 ≤ q.size
    → q.size < 2 ^ 16
    → q.base_addr % align ≡ 0
    → q.base_addr + alloc_size q.size < 2 ^ 64
    → (get_descriptor_addr q + 16 * q.size ≤ get_avail_addr q)
      × (get_avail_addr q + (3 * 2 + 2 * q.size) ≤ get_used_addr q)
      × (get_used_addr q + (3 * 2 + 8 * q.size) ≤ q.base_addr + alloc_size q.size)
      × (get_descriptor_addr q % 16 ≡ 0)
      × (get_avail_addr q % 2 ≡ 0)
      × (get_used_addr q % 4096 ≡ 0)
unfolding alloc_size get_descriptor_addr get_avail_addr get_used_addr
parts_lem q pos small aligned inside = omega arith
