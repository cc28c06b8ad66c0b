-- ===== src/Devices/VirtioNet/Tests.antt =====
-- The network driver of src/devices/virtio/net.rs on concrete buffers, queues and transports.
use urchin.Prelude.{
  ℕ, ◌/◌, ◌^◌, ◌%◌, ◌≤◌, ◌≡◌, refl, arith, List, [], ◌∷◌, ◌++◌, none, some, Bool, true, false,
  length, length-replicate, replicate, ◌&&◌, ◌||◌, take, get_or, bit_and,
}
use urchin.Devices.Buffer
use urchin.Devices.Buffer.{Buffer, Layout, slice}
use urchin.Devices.VirtioNet
use urchin.Devices.VirtioNet.{
  VirtioNet, drv_features, buffer_size, random_macaddr, setup_queue, negotiate, pre_xmit,
  fill_rx_queue, with_slice, xmit,
}
use urchin.Devices.VirtioNet.Fill.{new_buffers, new-Holds_fresh}
use urchin.Net.Mac
use urchin.Devices.VirtioNet.Transmit.{fresh, pre_xmit_lem, transmitted}
use urchin.Devices.VirtioNet.Refill.{fill_rx_queue_overwrites}
use urchin.Devices.VirtioNet.Negotiate.{KeepsStatus, negotiate_lem}
use urchin.Devices.VirtioMmio.{VirtioMmio, mmio_device}
use urchin.Devices.VirtioMmio.Tests.{
  Selectors, offered_features, feature_bus, feature_device, feature_bus-IsDevice,
}
use urchin.Devices.VirtioDevice.{VirtioDevice}
use urchin.Devices.Virtqueue
use urchin.Devices.Virtqueue.{Virtqueue, VirtqueueUsedElement, descriptor_of}
use urchin.Devices.Virtqueue.Push.{Holds}

abbrev pub no_pointer : Layout → ℕ
no_pointer l = 0x50_0000

-- What a new buffer holds is not zero.
abbrev pub dirty_memory : Layout → List ℕ
dirty_memory l = replicate l.size 0xaa

-- A buffer for a frame of 42 bytes.
frame_buffer :
    (b : Buffer) × (pre_xmit no_pointer dirty_memory 42 ≡ some b)
    × (42 ≤ length (slice b))
    × (take 12 b.memory ≡ replicate 12 0)
    × (b.position ≡ 12)
    × (Buffer.get_size b ≡ 54)
frame_buffer =
    pre_xmit_lem no_pointer dirty_memory (λ l. length-replicate l.size 0xaa) 42 (omega arith)

abbrev frame : List ℕ
frame = replicate (length (slice frame_buffer.0)) 0xab

-- A transport without a device.
abbrev pub no_device : VirtioDevice Bool
no_device = record {
  get_type = λ s. 1;
  get_irq = λ s. 5;
  read_and_ack_isr = λ s. (1, s);
  select_queue = λ k s. some s;
  get_queue_size = λ s. 64;
  setup_queue = λ q s. s;
  activate_queue = λ k s. s;
  kick_queue = λ k s. s;
  get_available_features = λ s. (0, s);
  set_enabled_features = λ f s. s;
  get_status = λ s. 0x0f;
  set_status = λ v s. s;
  read_config = λ k s. 0;
  is_legacy = λ s. false;
  set_indirect_buf_cap = λ b s. s;
  get_indirect_buf_cap = λ s. false;
  set_event_idx_cap = λ b s. s;
  get_event_idx_cap = λ s. false;
}

abbrev pub buffer_at : ℕ → Buffer
buffer_at p = record {
  buffer_ptr = p;
  size = 4096;
  position = 0;
  layout = record { size = 8192; align = 4096 };
  memory = [];
}

abbrev pub no_rings : ℕ → ℕ → ℕ × List ℕ × List VirtqueueUsedElement
no_rings k size = (0x60_0000, replicate size 0, replicate size (record { id = 0; len = 0 }))

-- Three buffers, two of which the device has finished.
abbrev pub busy_queue : Virtqueue
busy_queue =
    record (Virtqueue.new 0x60_0000 (replicate 64 0) (replicate 64 (record { id = 0; len = 0 })) 64
      false true) {
        buffers =
            some (buffer_at 0x70_0000)
            ∷ some (buffer_at 0x70_1000)
            ∷ some (buffer_at 0x70_2000)
            ∷ replicate 61 none;
        avail_idx = 3;
        free_head = 3;
        used_idx = 2;
      }

abbrev busy_buffers : List Buffer
busy_buffers = buffer_at 0x70_0000 ∷ buffer_at 0x70_1000 ∷ buffer_at 0x70_2000 ∷ []

busy_queue-Holds : Holds 0 busy_buffers busy_queue
unfolding Virtqueue.new
busy_queue-Holds = record {
  bounds = record {
    size_is = record { bits = 6; power = refl; small = omega arith };
    descriptors = refl;
    avail = refl;
    used = refl;
    slots = refl;
  };
  free = refl;
  pushed = refl;
  last = refl;
  held = (refl, (refl, (refl, tt)));
}

abbrev pub busy_net : VirtioNet Bool
busy_net = record {
  id = 0;
  virtio = true;
  rxqueue = busy_queue;
  txqueue = busy_queue;
  cxqueue = busy_queue;
  macaddr = record { addr = replicate 6 0; addr_prim = 0 };
  flag_csum = false;
  flag_guest_csum = false;
  flag_mac = true;
  flag_guest_tso4 = false;
  flag_guest_ecn = false;
  flag_guest_ufo = false;
  flag_host_tso4 = false;
  flag_host_ecn = false;
  flag_mergeable_rxbufs = false;
  flag_status = false;
}

transmitted_example :
    let b' = with_slice frame_buffer.0 frame in
    (q : Virtqueue) × (xmit no_device b' busy_net ≡ some (record busy_net { txqueue = q }))
    × Holds 0 (busy_buffers ++ (b' ∷ [])) q
    × (get_or q.avail_ring 3 64 ≡ 3)
    × (get_or q.descriptor 3 (descriptor_of b' true 0) ≡ descriptor_of b' true 4)
    × (Buffer.get_size b' ≡ 54)
    × (b'.memory ≡ replicate 12 0 ++ frame)
unfolding Virtqueue.new
transmitted_example =
    transmitted no_pointer dirty_memory (λ l. length-replicate l.size 0xaa) 42 (omega arith)
      no_device busy_net 0 busy_buffers busy_queue-Holds frame_buffer.0 frame frame_buffer.1
      (length-replicate (length (slice frame_buffer.0)) 0xab) (omega arith)

fill_rx_queue_overwrites_example :
    (n' : VirtioNet Bool) × (i : ℕ) × (fill_rx_queue no_device
        (λ k. no_pointer)
        (λ k. dirty_memory)
        no_rings
        0
        busy_net
      ≡ some n')
    × (get_or n'.rxqueue.buffers (0 % busy_net.rxqueue.size) none
        ≡ some (fresh no_pointer dirty_memory (λ l. length-replicate l.size 0xaa) 4096))
unfolding Virtqueue.new
fill_rx_queue_overwrites_example =
    fill_rx_queue_overwrites no_device (λ k. no_pointer) (λ k. dirty_memory) no_rings 0
      (λ k l. length-replicate l.size 0xaa) 0 2 busy_buffers busy_net busy_queue-Holds (omega arith)
      refl (omega arith) (omega arith) (omega arith) (omega arith)

feature_bus-KeepsStatus :
    KeepsStatus feature_bus 0xd000_0000 (λ r. offered_features) (λ r. r.accepted)
feature_bus-KeepsStatus = record {
  status_read = λ v r. refl;
  status_offered = λ v r. refl;
  status_accepted = λ v r. refl;
}

negotiate_lem_example :
    (s : VirtioMmio Selectors) × (negotiate (mmio_device feature_bus) feature_device
      ≡ some (bit_and offered_features drv_features, s))
    × (s.registers.accepted ≡ (
      bit_and offered_features drv_features / 2 ^ 32,
      bit_and offered_features drv_features % 2 ^ 32,
    ))
negotiate_lem_example =
    negotiate_lem feature_bus (λ r. offered_features) (λ r. r.accepted) feature_device
      feature_bus-IsDevice feature_bus-KeepsStatus

abbrev new_queue : ℕ → Bool → Virtqueue
new_queue idx need =
    Virtqueue.new 0x60_0000 (replicate 64 0) (replicate 64 (record { id = 0; len = 0 })) 64 false
      need

abbrev blank_element : VirtqueueUsedElement
blank_element = record { id = 0; len = 0 }

new-Holds_fresh_example :
    (n : VirtioNet Bool) × (VirtioNet.new no_device
        (λ k. no_pointer)
        (λ k. dirty_memory)
        no_rings
        7
        1
        true
      ≡ some (some n))
    × (n.id ≡ 1)
    × Holds 0
        (new_buffers
          (λ k. no_pointer)
          (λ k. dirty_memory)
          (λ k l. length-replicate l.size 0xaa)
          (buffer_size (n.flag_mergeable_rxbufs && (n.flag_guest_tso4 || n.flag_guest_ufo)))
          21
          0)
        n.rxqueue
    × Holds 0 [] n.txqueue
    × Holds 0 [] n.cxqueue
    × (n.macaddr ≡ Mac.new (random_macaddr 7))
unfolding negotiate setup_queue Virtqueue.new
new-Holds_fresh_example =
    new-Holds_fresh no_device (λ k. no_pointer) (λ k. dirty_memory) no_rings 7
      (λ k l. length-replicate l.size 0xaa) 1 0 true true true true true (new_queue 0 true)
      (new_queue 1 false) (new_queue 2 true)
      (λ s. record { bits = 6; power = refl; small = omega arith })
      (λ k size. (length-replicate size 0, length-replicate size blank_element)) refl refl refl refl
      refl
