-- ===== src/Devices/Virtqueue/Tests.antt =====
-- A small queue, and the instances of the theorems on it.
use urchin.Prelude.{ℕ, ◌-◌, ◌^◌, ◌<◌, ◌≡◌, refl, arith, List, [], ◌∷◌, some, true, false, get_or}
use urchin.Devices.Buffer.{Buffer}
use urchin.Devices.Virtqueue.{
  Virtqueue, VirtqueueUsedElement, new, push, pop, get_avail_free_size, descriptor_of,
}
use urchin.Devices.Virtqueue.Window.{IsSize}
use urchin.Devices.Virtqueue.Push.{Holds, new-Holds, pushed_queue, push_room}
use urchin.Devices.Virtqueue.Pop.{Pops, pop-Pops}
use urchin.Devices.Virtqueue.Free.{get_avail_free_size_after_wrap}

abbrev buffer_at : ℕ → Buffer
buffer_at p = record {
  buffer_ptr = p;
  size = 4096;
  position = 0;
  layout = record { size = 4096; align = 4096 };
  memory = [];
}

abbrev used_at : ℕ → VirtqueueUsedElement
used_at i = record { id = i; len = 0 }

abbrev two-IsSize : IsSize 2
two-IsSize = record { bits = 1; power = refl; small = omega arith }

abbrev fresh : Virtqueue
unfolding new
fresh = new 0x10_0000 (0 ∷ 0 ∷ []) (used_at 0 ∷ used_at 1 ∷ []) 2 false true

fresh-Holds : Holds 0 [] fresh
unfolding new
fresh-Holds =
    new-Holds 0x10_0000 (0 ∷ 0 ∷ []) (used_at 0 ∷ used_at 1 ∷ []) 2 false true two-IsSize refl refl

-- Both slots taken, by buffers at 1 and 2; the device has finished the first.
abbrev full : Virtqueue
full = record {
  base_addr = 0x10_0000;
  size = 2;
  descriptor = descriptor_of (buffer_at 1) true 1 ∷ descriptor_of (buffer_at 2) true 0 ∷ [];
  avail_flags = 0;
  avail_idx = 2;
  avail_ring = 0 ∷ 1 ∷ [];
  used_flags = 0;
  used_idx = 1;
  used_ring = used_at 0 ∷ used_at 1 ∷ [];
  buffers = some (buffer_at 1) ∷ some (buffer_at 2) ∷ [];
  free_head = 0;
  last_used_idx = 0;
  is_indirect = false;
}

abbrev both : List Buffer
both = buffer_at 1 ∷ buffer_at 2 ∷ []

full-Holds : Holds 0 both full
full-Holds = record {
  bounds = record {
    size_is = two-IsSize;
    descriptors = refl;
    avail = refl;
    used = refl;
    slots = refl;
  };
  free = refl;
  pushed = refl;
  last = refl;
  held = (refl, (refl, tt));
}

push_room_example :
    let q = pushed_queue (buffer_at 7) true 0 [] fresh fresh-Holds in
    (push (buffer_at 7) true fresh ≡ some q)
    × Holds 0 (buffer_at 7 ∷ []) q
    × (get_or q.avail_ring 0 2 ≡ 0)
    × (get_or q.descriptor 0 (descriptor_of (buffer_at 7) true 0)
        ≡ descriptor_of (buffer_at 7) true 1)
unfolding new
push_room_example = push_room (buffer_at 7) true 0 [] fresh fresh-Holds (omega arith)

pop-Pops_example : Pops 0 1 both (pop full)
pop-Pops_example = pop-Pops 0 1 both full full-Holds (omega arith) (omega arith) refl (refl, tt)

-- A queue of 256 with 2 descriptors at the device and 254 free, before and after the available index
-- has wrapped.
abbrev in_order : Virtqueue
in_order = record full { size = 256; avail_idx = 7; used_idx = 5 }

abbrev wrapped : Virtqueue
wrapped = record full { size = 256; avail_idx = 1; used_idx = 65535 }

get_avail_free_size_after_wrap_example :
    (get_avail_free_size wrapped ≡ 2 ^ 16 - (65537 - 65535))
    × (256 - (65537 - 65535) < get_avail_free_size wrapped)
get_avail_free_size_after_wrap_example =
    get_avail_free_size_after_wrap 65537 65535 wrapped (omega arith) (omega arith)

wrapped_free : get_avail_free_size wrapped ≡ 65534
unfolding get_avail_free_size
wrapped_free = refl
