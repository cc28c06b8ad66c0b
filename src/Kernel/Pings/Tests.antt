-- ===== src/Kernel/Pings/Tests.antt =====
-- A queue of 16 with three buffers, in the first of which the device has put the echo request of the
-- samples.
use urchin.Prelude.{
  ℕ, ◌+◌, ◌≡◌, refl, arith, List, [], ◌∷◌, ◌++◌, none, some, Bool, true, false, inr, replicate, set,
}
use urchin.Arch.Apic
use urchin.Arch.Apic.{vector_irq_base}
use urchin.Arch.Tests.{Board, board, board_machine}
use urchin.Asynchronous.ArrayQueue.Tests.{list_queue}
use urchin.Devices.Buffer.{Buffer, slice, slice_len, slide_position}
use urchin.Devices.Netif.{Netif}
use urchin.Devices.Virtqueue
use urchin.Devices.Virtqueue.{Virtqueue}
use urchin.Devices.Virtqueue.Push.{Holds}
use urchin.Devices.VirtioNet.{VirtioNet}
use urchin.Devices.VirtioNet.Tests.{no_device, no_pointer, dirty_memory, no_rings}
use urchin.Interrupt.{Cpu}
use urchin.Net.Mac
use urchin.Net.Ipv4Address
use urchin.Net.Ipv4Address.{Ipv4Address}
use urchin.Net.Icmpv4.Reply.{IsRequest}
use urchin.Net.Icmpv4.Answer.{IsReply}
use urchin.Net.Sample.{netif, own_ip, own_mac, tables, start, blank, echo_bytes}
use urchin.Net.Icmpv4.Tests.{echo_bytes-IsRequest}
use urchin.Kernel.MainLoop.{Handler, device, World, interrupted}
use urchin.Kernel.MainLoop.Serves.{kernel_pinged}
use urchin.Kernel.Network.{Device, Network, device_handler}
use urchin.Kernel.Receives.{frame_in}
use urchin.Kernel.Receives.Tests.{
  filled_buffer, other_buffers, queue_with-Holds, net_with, tables-IsReady,
}
use urchin.Kernel.Routes.{IsReady}
use urchin.Kernel.Pings.{IsPing}

abbrev pinged_buffer : Buffer
pinged_buffer = record filled_buffer {
  size = 56;
  layout = record { size = 56; align = 1 };
  memory = replicate 12 0 ++ echo_bytes;
}

pinged : IsPing netif own_ip (frame_in netif pinged_buffer)
unfolding slice slice_len slide_position Ipv4Address.from_array Mac.new Mac.mac_prim
pinged = record {
  for_us = inr refl;
  ether_type = refl;
  version = refl;
  protocol = refl;
  asked = refl;
}

requested : IsRequest blank netif (slice (slide_position pinged_buffer 12)) 10 5
unfolding slice slice_len slide_position
requested = echo_bytes-IsRequest

-- The driver has the interface of the samples.
abbrev pinged_net : VirtioNet Bool
pinged_net = record (net_with pinged_buffer) { macaddr = own_mac }

abbrev pinged_kernel : Cpu Board (Handler Device) (World (List ℕ) (Network Bool))
pinged_kernel = record {
  irq_handlers = record {
    handlers = set (replicate 256 none) 5 (some (device (record { slot = 0; irq = 5 })));
  };
  apic = Apic.new board;
  enabled = true;
  world = record {
    executor = record {
      futures = λ i. none;
      next_task = 0;
      timers = record {
        states = λ i. record { completed = false; expired_monotonic = 0; waker = none };
        next_state = 0;
        registered = [];
        tasks = [];
      };
    };
    network = record { drivers = pinged_net ∷ []; net = start };
  };
}

kernel_pinged_example :
    (reply : List ℕ) × (q : Virtqueue) × (c' : Cpu Board
      (Handler Device)
      (World (List ℕ) (Network Bool)))
    × (interrupted list_queue
          (device_handler no_device (λ k. no_pointer) (λ k. dirty_memory) no_rings 0 blank)
          board_machine
          (λ d. d.irq)
          (λ n. n)
          7
          (vector_irq_base + 5)
          pinged_kernel
        ≡ some c')
    × (c'.enabled ≡ true)
    × (c'.irq_handlers ≡ pinged_kernel.irq_handlers)
    × (c'.world.executor ≡ pinged_kernel.world.executor)
    × (c'.world.network.drivers
        ≡ set (pinged_net ∷ []) 0 (record pinged_net { virtio = true; rxqueue = q }))
    × Holds 1 other_buffers q
    × (c'.world.network.net.sent ≡ (netif, reply) ∷ [])
    × IsReply netif (slice (slide_position pinged_buffer 12)) 10 5 reply
    × ((netif' : Netif) (ip' : Ipv4Address)
        → IsReady netif' ip' tables
        → IsReady netif' ip' c'.world.network.net.tables)
unfolding Virtqueue.new
kernel_pinged_example =
    kernel_pinged no_device (λ k. no_pointer) (λ k. dirty_memory) no_rings 0 blank list_queue
      board_machine (λ n. n) pinged_kernel 7 0 5 1 0 10 5 own_ip pinged_net true pinged_buffer
      other_buffers refl refl refl tables-IsReady refl (omega arith) (omega arith) (omega arith)
      (queue_with-Holds pinged_buffer) (omega arith) refl (refl, tt) pinged requested
