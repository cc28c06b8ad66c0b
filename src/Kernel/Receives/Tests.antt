-- ===== src/Kernel/Receives/Tests.antt =====
-- A queue of 16 with three buffers, in the first of which the device has put the request of the samples.
use urchin.Prelude.{
  ◌≡◌, refl, arith, List, [], ◌∷◌, ◌++◌, none, some, Bool, true, false, inl, length-replicate,
  replicate, drop,
}
use urchin.Prelude.Map.{get}
use urchin.Devices.Buffer.{Buffer, slice, slice_len, slide_position}
use urchin.Devices.Virtqueue
use urchin.Devices.Virtqueue.{Virtqueue, get_avail_free_size}
use urchin.Devices.Virtqueue.Push.{Holds}
use urchin.Devices.VirtioNet.{VirtioNet, interrupt_handler}
use urchin.Devices.VirtioNet.Tests.{
  no_device, no_pointer, dirty_memory, buffer_at, no_rings, busy_net,
}
use urchin.Net.Ipv4Address
use urchin.Net.Fib.{find_ipv4_fib, ipv4_mask_to_prefixlen}
use urchin.Net.Ethernet.Own.{learn_all}
use urchin.Net.Node.{xmit}
use urchin.Net.Arp.Reply.{arp_reply, knowing, packet_of}
use urchin.Net.Sample.{netif, own_ip, own_bytes, tables, start, request_bytes}
use urchin.Kernel.Answers.{driver_slice, driver_slice_room}
use urchin.Kernel.Nodes.{proc_nodes}
use urchin.Kernel.Routes.{IsReady}
use urchin.Kernel.Receives.{frame_in, interrupt_answered}

abbrev pub filled_buffer : Buffer
filled_buffer = record {
  buffer_ptr = 0x70_0000;
  size = 54;
  position = 0;
  layout = record { size = 54; align = 1 };
  memory = replicate 12 0 ++ request_bytes;
}

abbrev pub other_buffers : List Buffer
other_buffers = buffer_at 0x70_1000 ∷ buffer_at 0x70_2000 ∷ []

abbrev pub queue_with : Buffer → Virtqueue
queue_with b =
    record (Virtqueue.new 0x60_0000 (replicate 16 0) (replicate 16 (record { id = 0; len = 66 })) 16
      false true) {
        buffers =
            some b ∷ some (buffer_at 0x70_1000) ∷ some (buffer_at 0x70_2000) ∷ replicate 13 none;
        avail_idx = 3;
        free_head = 3;
        used_idx = 1;
      }

pub queue_with-Holds : (b : Buffer) → Holds 0 (b ∷ other_buffers) (queue_with b)
unfolding Virtqueue.new
queue_with-Holds b = record {
  bounds = record {
    size_is = record { bits = 4; power = refl; small = omega arith };
    descriptors = refl;
    avail = refl;
    used = refl;
    slots = refl;
  };
  free = refl;
  pushed = refl;
  last = refl;
  held = (refl, (refl, (refl, tt)));
}

abbrev pub net_with : Buffer → VirtioNet Bool
net_with b = record busy_net { rxqueue = queue_with b }

pub tables-IsReady : IsReady netif own_ip tables
unfolding get find_ipv4_fib ipv4_mask_to_prefixlen Ipv4Address.masked
tables-IsReady = record {
  tables4 = refl;
  tables6 = refl;
  permanent = λ j adj e. ground (arith, e);
  own_mac = refl;
  own_ip = refl;
  fits = omega arith;
  host = refl;
}

interrupt_answered_example :
    (q : Virtqueue) × Holds 1 other_buffers q
    × (interrupt_handler no_device
          (λ k. no_pointer)
          (λ k. dirty_memory)
          no_rings
          0
          (proc_nodes (driver_slice no_pointer dirty_memory))
          (netif ∷ [])
          (net_with filled_buffer)
          start
        ≡ some (
          record (net_with filled_buffer) { virtio = true; rxqueue = q },
          xmit netif
              (arp_reply own_bytes (packet_of (frame_in netif filled_buffer))
                ++ drop 42 (driver_slice no_pointer dirty_memory netif 42))
              (knowing netif
                (packet_of (frame_in netif filled_buffer))
                (record start { tables = learn_all (frame_in netif filled_buffer ∷ []) tables })),
        ))
unfolding slice slice_len slide_position Ipv4Address.from_array Virtqueue.new
interrupt_answered_example =
    interrupt_answered no_device (λ k. no_pointer) (λ k. dirty_memory) no_rings 0
      (driver_slice no_pointer dirty_memory) (netif ∷ []) netif own_ip (net_with filled_buffer)
      start true 1 0 filled_buffer other_buffers refl tables-IsReady refl
      (driver_slice_room no_pointer dirty_memory (λ l. length-replicate l.size 0xaa) netif) refl
      (omega arith) (omega arith) (omega arith) (queue_with-Holds filled_buffer) (omega arith) refl
      (refl, tt) (omega arith) (omega arith) (inl refl) refl refl refl
