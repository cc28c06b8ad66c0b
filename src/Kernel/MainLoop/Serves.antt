-- ===== src/Kernel/MainLoop/Serves.antt =====
-- An interrupt of a network device, from its vector to the echo reply.
use urchin.Prelude.{
  ℕ, zero, suc, ◌+◌, ◌%◌, ◌^◌, ◌≤◌, ◌<◌, ◌≡◌, refl, arith, ap, ◌∙◌, List, [], ◌∷◌, ◌++◌, some, map,
  length, get_elem?, set,
}
use urchin.Arch.Apic.{ack_irq, vector_irq_base}
use urchin.Arch.Io.{Machine}
use urchin.Asynchronous.ArrayQueue.{ArrayQueue}
use urchin.Devices.Buffer.{Buffer, Layout, slice, slide_position}
use urchin.Devices.Netif.{Netif}
use urchin.Devices.Virtqueue.{Virtqueue, VirtqueueUsedElement}
use urchin.Devices.Virtqueue.Push.{Holds}
use urchin.Devices.Virtqueue.Pop.{AreUsed}
use urchin.Devices.VirtioDevice.{VirtioDevice}
use urchin.Devices.VirtioNet.{VirtioNet}
use urchin.Interrupt.{Cpu, get_handler}
use urchin.Interrupt.Kept.{interrupt_handler_lem}
use urchin.Net.Ipv4Address.{Ipv4Address}
use urchin.Net.Ethernet.Own.{learn_all}
use urchin.Net.Icmpv4.Reply.{IsRequest}
use urchin.Net.Icmpv4.Answer.{IsReply}
use urchin.Net.Node.{xmit}
use urchin.Kernel.MainLoop.{Handler, device, World, irq_of, handle, interrupted}
use urchin.Kernel.Network.{Device, Network, netif_of, device_handler}
use urchin.Kernel.Pings.{IsPing, interrupt_pinged, learn_one-IsReady}
use urchin.Kernel.Receives.{frame_in}
use urchin.Kernel.Routes.{IsReady}

get_elem?-map :
    {A B : Type 0} (f : A → B) (xs : List A) (i : ℕ) (x : A)
    → get_elem? xs i ≡ some x
    → get_elem? (map f xs) i ≡ some (f x)
get_elem?-map f [] i x e = absurd (ground (arith, e))
get_elem?-map f (y ∷ xs) zero x e = ground (arith, e)
get_elem?-map f (y ∷ xs) (suc i) x e = get_elem?-map f xs i x e

module _ {S : Type 0} {R : Type 0} {Q : Type 0} (dev : VirtioDevice S) (pointer : ℕ → Layout → ℕ)
    (memory : ℕ → Layout → List ℕ) (rings : ℕ → ℕ → ℕ × List ℕ × List VirtqueueUsedElement)
    (tscnum : ℕ) (pre_xmit : Netif → ℕ → List ℕ) (queue : ArrayQueue Q ℕ) (machine : Machine R)
    (nowtime : ℕ → ℕ) where
  -- The line of a device has its handler, the driver of the device stands in its slot under the number of
  -- the slot, and the tables know its interface and its address, all of which `start_rust` sees to. The
  -- device says in its interrupt status that it has finished the oldest buffer of its receive queue, and it
  -- has finished no other. No more than 33 descriptors of the queue are free, and its available index has not
  -- wrapped past its used index. The frame in that buffer, broadcast or sent to the interface, is an ICMP
  -- echo request for the address, of an even number of bytes behind an IPv4 header without options;
  -- `pre_xmit` returns buffers of at least the size asked for. Then the interrupt of the line returns with
  -- interrupts enabled as they were. That buffer and no other is taken from the queue, and one frame is sent,
  -- after those sent before: the echo reply to the request, on the interface. The handlers, the tasks and the
  -- other drivers are as they were, and every interface and address that the tables knew they know still.
  pub kernel_pinged :
      (c : Cpu R (Handler Device) (World Q (Network S))) (now slot irq isr popped size words : ℕ)
      (ip : Ipv4Address) (n : VirtioNet S) (s : S) (b : Buffer) (bs : List Buffer)
      → get_handler irq c.irq_handlers ≡ some (device (record { slot = slot; irq = irq }))
      → get_elem? c.world.network.drivers slot ≡ some n
      → n.id ≡ slot
      → IsReady (netif_of n) ip c.world.network.net.tables
      → dev.read_and_ack_isr n.virtio ≡ (isr, s)
      → 0 < isr
      → n.rxqueue.size ≤ length bs + 33
      → n.rxqueue.used_idx ≤ n.rxqueue.avail_idx
      → Holds popped (b ∷ bs) n.rxqueue
      → suc (length bs) ≤ n.rxqueue.size
      → n.rxqueue.used_idx ≡ (popped + 1) % 2 ^ 16
      → AreUsed n.rxqueue.used_ring n.rxqueue.size popped 1
      → IsPing (netif_of n) ip (frame_in (netif_of n) b)
      → IsRequest pre_xmit (netif_of n) (slice (slide_position b 12)) size words
      → (reply : List ℕ) × (q : Virtqueue) × (c' : Cpu R (Handler Device) (World Q (Network S)))
        × (interrupted queue
              (device_handler dev pointer memory rings tscnum pre_xmit)
              machine
              (λ d. d.irq)
              nowtime
              now
              (vector_irq_base + irq)
              c
            ≡ some c')
        × (c'.enabled ≡ c.enabled)
        × (c'.irq_handlers ≡ c.irq_handlers)
        × (c'.world.executor ≡ c.world.executor)
        × (c'.world.network.drivers
            ≡ set c.world.network.drivers slot (record n { virtio = s; rxqueue = q }))
        × Holds (popped + 1) bs q
        × (c'.world.network.net.sent ≡ c.world.network.net.sent ++ ((netif_of n, reply) ∷ []))
        × IsReply (netif_of n) (slice (slide_position b 12)) size words reply
        × ((netif : Netif) (ip' : Ipv4Address)
            → IsReady netif ip' c.world.network.net.tables
            → IsReady netif ip' c'.world.network.net.tables)
  unfolding interrupted device_handler
  kernel_pinged c now slot irq isr popped size words ip n s b bs wired driver place ready acked
        some_isr many behind h fits used ids ping request =
      let w = c.world.network in
      let iface : get_elem? (map netif_of w.drivers) n.id ≡ some (netif_of n) =
        ap (get_elem? (map netif_of w.drivers)) place
        ∙ get_elem?-map netif_of w.drivers slot n driver in
      let (reply, q, holds, sent, is_reply) =
        interrupt_pinged dev pointer memory rings tscnum pre_xmit (map netif_of w.drivers)
          (netif_of n) ip n w.net s isr popped size words b bs iface ready acked some_isr many
          behind h fits used ids ping request in
      let n' = record n { virtio = s; rxqueue = q } in
      let st =
        xmit (netif_of n) reply
          (record w.net { tables = learn_all (frame_in (netif_of n) b ∷ []) w.net.tables }) in
      let w' : World Q (Network S) = record c.world {
        network = record w { drivers = set w.drivers slot n'; net = st };
      } in
      let handled : handle queue (device_handler dev pointer memory rings tscnum pre_xmit) now
            (device (record { slot = slot; irq = irq })) c.world
          ≡ some w' =
        rw (driver, device_handler) (rw sent refl) in
      let ran =
        interrupt_handler_lem machine (irq_of (λ d. d.irq))
          (handle queue (device_handler dev pointer memory rings tscnum pre_xmit) now) irq c
          (device (record { slot = slot; irq = irq })) w' wired handled in
      (
        reply,
        q,
        record c { apic = ack_irq machine c.apic; world = w' },
        rw ran refl,
        refl,
        refl,
        refl,
        refl,
        holds,
        refl,
        is_reply,
        λ netif ip' h. learn_one-IsReady netif ip' (frame_in (netif_of n) b) w.net.tables h,
      )
