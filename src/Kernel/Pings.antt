-- ===== src/Kernel/Pings.antt =====
-- From the receive queue of a device to the echo reply: the driver, the node of Ethernet, that of IPv4 and
-- that of ICMP.
mod Tests
use urchin.Prelude.{
  ℕ, suc, ◌+◌, ◌%◌, ◌^◌, ◌≤◌, ◌<◌, ◌≡◌, refl, arith, ap, sym, ◌∙◌, List, [], ◌∷◌, Option, none,
  some, Bool, true, false, inl, inr, ◌⊎◌, length, replicate, get_elem?, get_or, bit_and, sub_u16,
  ◌==◌, ◌>>=◌, ◌&&◌, ◌||◌,
}
use urchin.Devices.Buffer.{Buffer, Layout, slice, slide_position}
use urchin.Devices.Netif.{Netif}
use urchin.Devices.Virtqueue.{Virtqueue, VirtqueueUsedElement, get_avail_free_size}
use urchin.Devices.Virtqueue.Push.{Holds}
use urchin.Devices.Virtqueue.Pop.{AreUsed}
use urchin.Devices.VirtioDevice.{VirtioDevice}
use urchin.Devices.VirtioNet.{VirtioNet, interrupt_handler}
use urchin.Devices.VirtioNet.Receive.{interrupt_handler-frames}
use urchin.Net.Mac
use urchin.Net.Ipv4Address
use urchin.Net.Ipv4Address.{Ipv4Address}
use urchin.Net.Fib.{Tables, register_macaddress, find_ipv4_fib}
use urchin.Net.Ethernet.{ethernet_process}
use urchin.Net.Ethernet.Own.{
  type_of, learn_all, learn_one, learn_one-IsPermanent, learning_keeps_own,
}
use urchin.Net.Ethernet.Accept.{ethernet_process_lem}
use urchin.Net.Frame.{field}
use urchin.Net.Frame.Laws.{bind_some}
use urchin.Net.Node.{DataFromNetif, NetState, xmit}
use urchin.Net.Ipv4In.{ipv4_loop, ipv4_process}
use urchin.Net.Ipv4In.Repeat.{header_of, IsLocalIcmp, ipv4_process-one}
use urchin.Net.Icmpv4.{icmpv4_one, icmpv4_process}
use urchin.Net.Icmpv4.Reply.{IsRequest}
use urchin.Net.Icmpv4.Answer.{IsReply, request_answered, icmpv4_process-one}
use urchin.Kernel.Registered.{local_route}
use urchin.Kernel.Routes.{IsReady, IsReady-to_us}
use urchin.Kernel.Nodes.{local_nodes, ip_nodes, proc_nodes}
use urchin.Kernel.Receives.{frame_in, destination, is_for_us_lem}

-- The headers of a frame with an echo request for the address `ip`.
pub record IsPing (netif : Netif) (ip : Ipv4Address) (frame : DataFromNetif) : Type 0 where
  pub for_us :
      (destination frame ≡ replicate 6 0xff) ⊎ (Mac.new (destination frame) ≡ netif.macaddr)
  pub ether_type : type_of frame ≡ 0x08 ∷ 0x00 ∷ []
  pub version : (bit_and (get_or (header_of frame) 0 0) 0xf0 == 0x40) ≡ true
  pub protocol : (get_or (header_of frame) 9 0 == 0x01) ≡ true
  pub asked : Ipv4Address.from_array (field 16 4 (header_of frame)) ≡ ip

-- Learning the source of a frame keeps the tables ready.
pub learn_one-IsReady :
    (netif : Netif) (ip : Ipv4Address) (frame : DataFromNetif) (t : Tables)
    → IsReady netif ip t
    → IsReady netif ip (learn_one frame t)
unfolding register_macaddress
learn_one-IsReady netif ip frame t h = record {
  tables4 = h.tables4;
  tables6 = h.tables6;
  permanent = learn_one-IsPermanent frame t h.permanent;
  own_mac =
      learning_keeps_own (Mac.new (field 6 6 (field 0 14 (slice frame.buffer)))) frame.netif
        t.mac_addr_table netif.macaddr h.permanent
      ∙ h.own_mac;
  own_ip = h.own_ip;
  fits = h.fits;
  host = h.host;
}

module _ (pre_xmit : Netif → ℕ → List ℕ) (netif : Netif) (ip : Ipv4Address) (b : Buffer)
    (st : NetState) (size words : ℕ) (ready : IsReady netif ip st.tables)
    (ping : IsPing netif ip (frame_in netif b))
    (request : IsRequest pre_xmit netif (slice (slide_position b 12)) size words) where
  abbrev frame : DataFromNetif
  frame = frame_in netif b

  -- The state once the sender is known.
  abbrev pub learned : NetState
  learned = record st { tables = learn_all (frame ∷ []) st.tables }

  is_local : IsLocalIcmp learned.tables frame
  is_local = record {
    long = omega (arith, request.long);
    version = ping.version;
    fib = local_route netif ip;
    found =
        ap (λ a. find_ipv4_fib a 0xffff_ffff learned.tables) ping.asked
        ∙ IsReady-to_us netif ip learned.tables (learn_one-IsReady netif ip frame st.tables ready);
    is_local = refl;
    is_icmp = ping.protocol;
  }

  pub ethernet_ping :
      (reply : List ℕ) × (ethernet_process (ip_nodes pre_xmit) (frame ∷ []) st
        ≡ some (xmit netif reply learned))
      × IsReply netif (slice frame.buffer) size words reply
  ethernet_ping =
      let (reply, sent, is_reply) = request_answered pre_xmit frame learned size words request in
      let answered : icmpv4_process pre_xmit (frame ∷ []) learned
          ≡ some (xmit netif reply learned) =
        icmpv4_process-one pre_xmit frame learned (xmit netif reply learned) sent in
      let passed : ipv4_process (local_nodes pre_xmit) (frame ∷ []) learned
          ≡ some (xmit netif reply learned) =
        ipv4_process-one (local_nodes pre_xmit) (icmpv4_process pre_xmit) learned.tables refl frame
          learned (xmit netif reply learned) refl is_local answered in
      (
        reply,
        ethernet_process_lem (ip_nodes pre_xmit) (frame ∷ []) st ready.permanent
              (omega (arith, request.long), tt)
            ∙ rw (is_for_us_lem netif ip frame st.tables ready ping.for_us, ping.ether_type)
                (rw passed refl),
        is_reply,
      )

module _ {S : Type 0} (dev : VirtioDevice S) (pointer : ℕ → Layout → ℕ)
    (memory : ℕ → Layout → List ℕ) (rings : ℕ → ℕ → ℕ × List ℕ × List VirtqueueUsedElement)
    (tscnum : ℕ) (pre_xmit : Netif → ℕ → List ℕ) where
  -- The tables know the interface of a device and its address. The device has finished the oldest buffer
  -- of its receive queue and no other, no more than 33 descriptors of which are free, and the available
  -- index of which has not wrapped past the used index. The frame in it, broadcast or sent to the interface,
  -- is an ICMP echo request for the address, of an even number of bytes behind an
  -- IPv4 header without options; `pre_xmit` returns buffers of at least the size asked for. Then the
  -- interrupt of the device takes that buffer and no other from the queue, learns who has sent the frame,
  -- and sends on the interface one frame, which is the echo reply to the request.
  pub interrupt_pinged :
      (net_ifaces : List Netif) (netif : Netif) (ip : Ipv4Address) (n : VirtioNet S) (st : NetState)
      (s : S) (isr popped size words : ℕ) (b : Buffer) (bs : List Buffer)
      → get_elem? net_ifaces n.id ≡ some netif
      → IsReady netif ip st.tables
      → dev.read_and_ack_isr n.virtio ≡ (isr, s)
      → 0 < isr
      → n.rxqueue.size ≤ length bs + 33
      → n.rxqueue.used_idx ≤ n.rxqueue.avail_idx
      → Holds popped (b ∷ bs) n.rxqueue
      → suc (length bs) ≤ n.rxqueue.size
      → n.rxqueue.used_idx ≡ (popped + 1) % 2 ^ 16
      → AreUsed n.rxqueue.used_ring n.rxqueue.size popped 1
      → IsPing netif ip (frame_in netif b)
      → IsRequest pre_xmit netif (slice (slide_position b 12)) size words
      → (reply : List ℕ) × (q : Virtqueue) × Holds (popped + 1) bs q
        × (interrupt_handler dev pointer memory rings tscnum (proc_nodes pre_xmit) net_ifaces n st
            ≡ some (
              record n { virtio = s; rxqueue = q },
              xmit netif reply (record st { tables = learn_all (frame_in netif b ∷ []) st.tables }),
            ))
        × IsReply netif (slice (slide_position b 12)) size words reply
  interrupt_pinged net_ifaces netif ip n st s isr popped size words b bs iface ready acked some_isr
        many behind h fits used ids ping request =
      let (q, holds, returned) =
        interrupt_handler-frames dev pointer memory rings tscnum (proc_nodes pre_xmit)
          (ethernet_process (ip_nodes pre_xmit)) net_ifaces netif n st s isr popped 1 (b ∷ bs) refl
          iface acked some_isr (omega (arith, many)) behind h fits (omega arith) (omega arith) used
          ids in
      let (reply, sent, is_reply) =
        ethernet_ping pre_xmit netif ip b st size words ready ping request in
      (reply, q, holds, returned ∙ bind_some _ sent refl, is_reply)
