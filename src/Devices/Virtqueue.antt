-- ===== src/Devices/Virtqueue.antt =====
-- `Virtqueue` of src/devices/virtio.rs. Its rings lie in memory that the device shares: the device
-- sets `used_idx` and `used_ring`. `none` as a result is a panic, from an index out of range.
pub mod Window
pub mod Layout
pub mod Push
pub mod Overwrite
pub mod Pop
pub mod Free
mod Tests
use urchin.Prelude.{
  write_at, ◌>>=◌, ℕ, zero, suc, ◌+◌, ◌-◌, ◌*◌, ◌/◌, ◌%◌, ◌^◌, List, [], ◌∷◌, Option, none, some,
  Bool, true, false, ◌==◌, ltb, leb, if◌then◌else◌, length, get_elem?, set, replicate, u16, u32,
  u64, usize, sub_u16, sub_usize, bit_and,
}
use urchin.Devices.Buffer
use urchin.Devices.Buffer.{Buffer, get_address}

pub record VirtqueueDescriptor : Type 0 where
  pub addr : ℕ
  pub len : ℕ
  pub flags : ℕ
  pub next : ℕ

pub record VirtqueueUsedElement : Type 0 where
  pub id : ℕ
  pub len : ℕ

pub record Virtqueue : Type 0 where
  pub base_addr : ℕ
  pub size : ℕ
  pub descriptor : List VirtqueueDescriptor
  pub avail_flags : ℕ
  pub avail_idx : ℕ
  pub avail_ring : List ℕ
  pub used_flags : ℕ
  pub used_idx : ℕ
  pub used_ring : List VirtqueueUsedElement
  pub buffers : List (Option Buffer)
  pub free_head : ℕ
  pub last_used_idx : ℕ
  pub is_indirect : Bool

abbrev pub align : ℕ
align = 4096

-- `(bytes - 1) / align + 1) * align`, for a number of bytes that is not 0.
abbrev pub pages : ℕ → ℕ
pages bytes = ((bytes - 1) / align + 1) * align

-- The sizes fit: `size` is a u16.
unfoldable pub alloc_size : ℕ → ℕ
alloc_size size = pages (16 * size + 3 * 2 + 2 * size) + pages (3 * 2 + 8 * size)

-- `base_addr` is the allocation, `old_avail` and `old_used` what the memory of the rings holds.
unfoldable pub new : ℕ → List ℕ → List VirtqueueUsedElement → ℕ → Bool → Bool → Virtqueue
new base_addr old_avail old_used size is_indirect used_interrupt = record {
  base_addr = base_addr;
  size = size;
  descriptor = replicate size (record { addr = 0; len = 0; flags = 0; next = 0 });
  avail_flags = (if used_interrupt then 0 else 1);
  avail_idx = 0;
  avail_ring = old_avail;
  used_flags = 0;
  used_idx = 0;
  used_ring = old_used;
  buffers = replicate size none;
  free_head = 0;
  last_used_idx = 0;
  is_indirect = is_indirect;
}

unfoldable pub get_descriptor_addr : Virtqueue → ℕ
get_descriptor_addr q = q.base_addr

unfoldable pub get_size : Virtqueue → ℕ
get_size q = q.size

unfoldable pub get_avail_addr : Virtqueue → ℕ
get_avail_addr q = u64 (q.base_addr + 16 * q.size)

unfoldable pub get_used_addr : Virtqueue → ℕ
get_used_addr q = u64 (q.base_addr + pages (16 * q.size + 3 * 2 + 2 * q.size))

unfoldable pub get_avail_free_size : Virtqueue → ℕ
get_avail_free_size q =
    if leb q.used_idx q.avail_idx
    then sub_u16 q.size (sub_u16 q.avail_idx q.used_idx)
    else sub_u16 q.used_idx q.avail_idx

-- `x & (size - 1)` on u16 values.
abbrev pub mask_index : ℕ → ℕ → ℕ
mask_index x size = bit_and x (sub_u16 size 1)

abbrev pub descriptor_of : Buffer → Bool → ℕ → VirtqueueDescriptor
descriptor_of buffer is_guest next = record {
  addr = u64 (get_address buffer);
  len = u32 (Buffer.get_size buffer);
  flags = (if is_guest then 0 else 2);
  next = next;
}

unfoldable pub push : Buffer → Bool → Virtqueue → Option Virtqueue
push buffer is_guest q = do
  let desc_idx = q.free_head
  let next = mask_index (u16 (u16 desc_idx + 1)) q.size
  avail_ring ← write_at q.avail_ring (mask_index q.avail_idx q.size) (u16 desc_idx)
  descriptor ← write_at q.descriptor desc_idx (descriptor_of buffer is_guest next)
  buffers ← write_at q.buffers desc_idx (some buffer)
  some (record q {
    avail_ring = avail_ring;
    avail_idx = u16 (q.avail_idx + 1);
    descriptor = descriptor;
    buffers = buffers;
    free_head = next;
  })

keep : Option Buffer → List Buffer → List Buffer
keep none ret = ret
keep (some buff) ret = buff ∷ ret

-- One round of the loop of `pop`: the buffer found, if any, and the queue after it.
pub pop_one : Virtqueue → Option (Option Buffer × Virtqueue)
pop_one q = do
  used ← get_elem? q.used_ring (mask_index q.last_used_idx q.size)
  let desc_idx = used.id
  desc ← get_elem? q.descriptor desc_idx
  buff ← get_elem? q.buffers desc_idx
  buffers ← write_at q.buffers desc_idx none
  some (buff, record q { buffers = buffers; last_used_idx = u16 (q.last_used_idx + 1) })

-- `pop` with rounds to spare, at most 2 ^ 16: the outer `none` also says that they ran out.
pub pop_loop : ℕ → Virtqueue → Option (List Buffer × Virtqueue)
unfolding keep
pop_loop zero q = if q.last_used_idx == q.used_idx then some ([], q) else none
pop_loop (suc rounds) q =
    let more =
      pop_one q >>= λ (buff, q'). pop_loop rounds q' >>= λ (ret, q''). some (keep buff ret, q'') in
    if q.last_used_idx == q.used_idx then some ([], q) else more

pub pop : Virtqueue → Option (List Buffer × Virtqueue)
pop q = pop_loop (2 ^ 16) q
