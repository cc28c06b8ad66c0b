-- ===== src/Devices/VirtioNet/Receive.antt =====
-- What an interrupt of the network device gives to the node of Ethernet.
use mathlib.Core.Path.{subst}
use urchin.Prelude.{
  ℕ, ◌+◌, ◌-◌, ◌%◌, ◌^◌, ◌≤◌, ◌<◌, ◌≡◌, refl, arith, ap, List, some, Option, Option-cases, true,
  false, inl, inr, map, length, take, drop, get_elem?, ltb, lt→ltb, sub_u16, ◌>>=◌,
}
use urchin.Devices.Buffer.{Buffer, Layout, slide_position}
use urchin.Devices.Netif.{Netif}
use urchin.Devices.Virtqueue.{Virtqueue, VirtqueueUsedElement, get_avail_free_size, pop}
use urchin.Devices.Virtqueue.Free.{Counts, get_avail_free_size_lem}
use urchin.Devices.Virtqueue.Window.{IsSize_range}
use urchin.Devices.Virtqueue.Push.{Holds}
use urchin.Devices.Virtqueue.Pop.{AreUsed, Pops, pop-Pops}
use urchin.Devices.VirtioDevice.{VirtioDevice}
use urchin.Devices.VirtioNet.{VirtioNet, fill_rx_queue, interrupt_handler}
use urchin.Net.Node.{DataFromNetif, NetState, Node, NodeName, ethernet_in}

-- The frames in buffers of the device: behind the header of virtio-net.
abbrev pub frames_of : Netif → List Buffer → List DataFromNetif
frames_of netif bs = map (λ b. record { netif = netif; buffer = slide_position b 12 }) bs

module _ {S : Type 0} (dev : VirtioDevice S) (pointer : ℕ → Layout → ℕ)
    (memory : ℕ → Layout → List ℕ) (rings : ℕ → ℕ → ℕ × List ℕ × List VirtqueueUsedElement)
    (tscnum : ℕ) where
  no_refill :
      (n : VirtioNet S)
      → sub_u16 (get_avail_free_size n.rxqueue) 1 ≤ 32
      → fill_rx_queue dev pointer memory rings tscnum n ≡ some n
  unfolding fill_rx_queue
  no_refill n few =
      let test : ltb 32 (sub_u16 (get_avail_free_size n.rxqueue) 1) ≡ false = ground arith in
      rw test refl

  -- Where the device has finished `k` of the buffers that a queue holds, and the available index has not
  -- wrapped past the used one, the code counts the free descriptors right.
  few_free :
      (popped k : ℕ) (bs : List Buffer) (q : Virtqueue)
      → Holds popped bs q
      → length bs ≤ q.size
      → 1 ≤ k
      → k ≤ length bs
      → q.used_idx ≡ (popped + k) % 2 ^ 16
      → q.used_idx ≤ q.avail_idx
      → q.size ≤ length bs - k + 33
      → sub_u16 (get_avail_free_size q) 1 ≤ 32
  few_free popped k bs q h room some_done le used behind many =
      let range = IsSize_range h.bounds.size_is in
      let counts : Counts (popped + length bs) (popped + k) q = record {
        avail = h.pushed;
        used = used;
        order = omega arith;
        fits = omega arith;
        small = range.1;
      } in
      let order : (popped + k) % 2 ^ 16 ≤ (popped + length bs) % 2 ^ 16 =
        omega (arith, used, h.pushed, behind) in
      omega (
        arith,
        get_avail_free_size_lem (popped + length bs) (popped + k) q counts order,
        range,
        room,
        many,
        some_done,
        le,
      )

  -- Where no more than 33 descriptors of the receive queue are free, the available index has not wrapped
  -- past the used one, and the device has finished the `k` oldest of those that are held, its interrupt gives their frames, in order, to the node of Ethernet, and the queue
  -- holds the others; it panics only where the node does.
  pub interrupt_handler-frames :
      (nodes : NodeName → Option Node) (process : Node) (net_ifaces : List Netif) (netif : Netif)
      (n : VirtioNet S) (st : NetState) (s : S) (isr popped k : ℕ) (bs : List Buffer)
      → nodes ethernet_in ≡ some process
      → get_elem? net_ifaces n.id ≡ some netif
      → dev.read_and_ack_isr n.virtio ≡ (isr, s)
      → 0 < isr
      → n.rxqueue.size ≤ length bs - k + 33
      → n.rxqueue.used_idx ≤ n.rxqueue.avail_idx
      → Holds popped bs n.rxqueue
      → length bs ≤ n.rxqueue.size
      → 1 ≤ k
      → k ≤ length bs
      → n.rxqueue.used_idx ≡ (popped + k) % 2 ^ 16
      → AreUsed n.rxqueue.used_ring n.rxqueue.size popped k
      → (q : Virtqueue) × Holds (popped + k) (drop k bs) q
        × (interrupt_handler dev pointer memory rings tscnum nodes net_ifaces n st ≡ (
            process (frames_of netif (take k bs)) st >>= λ st'.
            some (record n { virtio = s; rxqueue = q }, st')))
  unfolding interrupt_handler
  interrupt_handler-frames nodes process net_ifaces netif n st s isr popped k bs node iface acked
        some_isr many behind h room some_done le used ids =
      let few = few_free popped k bs n.rxqueue h room some_done le used behind many in
      let p = pop-Pops popped k bs n.rxqueue h room le used ids in
      elim (Option-cases (pop n.rxqueue)) [
        | inl gone ↦ absurd (rw gone at p)
        | inr ((ret, q), popped_some) ↦
            let both : (ret ≡ take k bs) × Holds (popped + k) (drop k bs) q =
              subst (Pops popped k bs) popped_some p in
            let test : ltb 0 isr ≡ true = lt→ltb 0 isr some_isr in
            (
              q,
              both.1,
              rw (acked, test, no_refill (record n { virtio = s }) few, popped_some, iface, node)
                  (ap
                    (λ l. process (frames_of netif l) st >>= λ st'.
                      some (record n { virtio = s; rxqueue = q }, st'))
                    both.0),
            )
      ]
