-- ===== src/Kernel/Receives.antt =====
-- From the receive queue of a device to the answer: the driver, the node of Ethernet and the node of ARP.
pub mod Tests
use urchin.Prelude.{
  ℕ, suc, ◌+◌, ◌%◌, ◌^◌, ◌≤◌, ◌<◌, ◌≡◌, refl, arith, ap, sym, ◌∙◌, List, [], ◌∷◌, ◌++◌, Option,
  none, some, Bool, true, false, inl, inr, ◌⊎◌, length, take, drop, replicate, get_elem?, sub_u16,
  All, ◌>>=◌, ◌&&◌, ◌||◌,
}
use urchin.Prelude.Map.{get}
use urchin.Devices.Buffer.{Buffer, Layout, slice, slide_position}
use urchin.Devices.Netif.{Netif}
use urchin.Devices.Virtqueue.{Virtqueue, VirtqueueUsedElement, get_avail_free_size}
use urchin.Devices.Virtqueue.Push.{Holds}
use urchin.Devices.Virtqueue.Pop.{AreUsed}
use urchin.Devices.VirtioDevice.{VirtioDevice}
use urchin.Devices.VirtioNet.{VirtioNet, interrupt_handler}
use urchin.Devices.VirtioNet.Receive.{interrupt_handler-frames}
use urchin.Net.Mac
use urchin.Net.Mac.{mac_ord}
use urchin.Net.Ipv4Address
use urchin.Net.Ipv4Address.{Ipv4Address, ipv4_ord}
use urchin.Net.Fib.{Tables, register_macaddress}
use urchin.Net.Ethernet.{ethernet_process}
use urchin.Net.Ethernet.Own.{is_own, is_for_us, type_of, accepted, learn_all}
use urchin.Net.Ethernet.Accept.{ethernet_process_lem}
use urchin.Net.Frame.{field, le16_at, same_bytes}
use urchin.Net.Frame.Laws.{bind_some}
use urchin.Net.Node.{DataFromNetif, NetState, xmit}
use urchin.Net.Arp.{arp_process}
use urchin.Net.Arp.Reply.{arp_reply, knowing, packet_of, arp_one_request, arp_process_one}
use urchin.Kernel.{self_entry}
use urchin.Kernel.Routes.{IsReady}
use urchin.Kernel.Nodes.{ip_nodes, proc_nodes}

-- The frame in the first buffer, and where it goes.
abbrev pub frame_in : Netif → Buffer → DataFromNetif
frame_in netif b = record { netif = netif; buffer = slide_position b 12 }

abbrev pub destination : DataFromNetif → List ℕ
destination frame = field 0 6 (field 0 14 (slice frame.buffer))

or_true : (a b : Bool) → b ≡ true → (a || b) ≡ true
or_true a b h = ground (arith, h)

pub is_for_us_lem :
    (netif : Netif) (ip : Ipv4Address) (frame : DataFromNetif) (t : Tables)
    → IsReady netif ip t
    → (destination frame ≡ replicate 6 0xff) ⊎ (Mac.new (destination frame) ≡ netif.macaddr)
    → is_for_us t.mac_addr_table frame ≡ true
is_for_us_lem netif ip frame t ready for_us = elim for_us [
  | inl everyone ↦ rw everyone refl
  | inr own ↦ or_true _ _ (ap (is_own t.mac_addr_table) own ∙ ready.own_mac)
]

module _ (pre_xmit : Netif → ℕ → List ℕ) (netif : Netif) (ip : Ipv4Address) (frame : DataFromNetif)
    (st : NetState) (ready : IsReady netif ip st.tables) (mac : length netif.macaddr.addr ≡ 6)
    (room : 42 ≤ length (pre_xmit netif 42)) (long : 42 ≤ length (slice frame.buffer))
    (bytes : All (λ b. b < 256) (slice frame.buffer))
    (for_us : (destination frame ≡ replicate 6 0xff)
      ⊎ (Mac.new (destination frame) ≡ netif.macaddr))
    (arp_type : type_of frame ≡ 0x08 ∷ 0x06 ∷ []) (oper : le16_at 6 (packet_of frame) ≡ 0x0100)
    (asked : Ipv4Address.from_array (field 24 4 (packet_of frame)) ≡ ip) where
  -- The state after the frame: its source and its sender are known.
  abbrev pub known : NetState
  known =
      knowing frame.netif (packet_of frame)
        (record st { tables = learn_all (frame ∷ []) st.tables })

  answered :
      arp_process pre_xmit (frame ∷ []) (record st { tables = learn_all (frame ∷ []) st.tables })
      ≡ some (
          xmit netif
            (arp_reply netif.macaddr.addr (packet_of frame) ++ drop 42 (pre_xmit netif 42))
            known)
  unfolding register_macaddress
  answered = arp_process_one pre_xmit frame _ _ (
      arp_one_request pre_xmit frame (record st { tables = learn_all (frame ∷ []) st.tables })
        (self_entry netif.macaddr netif) long bytes ready.tables4 oper
        (ap (λ a. get a st.tables.ipv4_adjacent) asked ∙ ready.own_ip) refl refl mac room)

  pub ethernet_request :
      ethernet_process (ip_nodes pre_xmit) (frame ∷ []) st
      ≡ some (
          xmit netif
            (arp_reply netif.macaddr.addr (packet_of frame) ++ drop 42 (pre_xmit netif 42))
            known)
  ethernet_request =
      ethernet_process_lem (ip_nodes pre_xmit) (frame ∷ []) st ready.permanent (omega arith, tt)
      ∙ rw (is_for_us_lem netif ip frame st.tables ready for_us, arp_type, answered) refl

module _ {S : Type 0} (dev : VirtioDevice S) (pointer : ℕ → Layout → ℕ)
    (memory : ℕ → Layout → List ℕ) (rings : ℕ → ℕ → ℕ × List ℕ × List VirtqueueUsedElement)
    (tscnum : ℕ) (pre_xmit : Netif → ℕ → List ℕ) where
  -- The tables know the interface of a device and its address. The device says in its interrupt status that
  -- it has finished the oldest buffer of its receive queue, and it has finished no other. No more than 33
  -- descriptors of the queue are free, and its available index has not wrapped past its used index. The frame
  -- in that buffer, broadcast or sent to the interface, is an ARP request for the address, and `pre_xmit`
  -- returns a buffer with room for the reply. Then the interrupt of the device takes that buffer and no other
  -- from the queue, learns who has sent the frame, and sends on the interface the reply that ARP asks for.
  pub interrupt_answered :
      (net_ifaces : List Netif) (netif : Netif) (ip : Ipv4Address) (n : VirtioNet S) (st : NetState)
      (s : S) (isr popped : ℕ) (b : Buffer) (bs : List Buffer)
      → get_elem? net_ifaces n.id ≡ some netif
      → IsReady netif ip st.tables
      → length netif.macaddr.addr ≡ 6
      → 42 ≤ length (pre_xmit netif 42)
      → dev.read_and_ack_isr n.virtio ≡ (isr, s)
      → 0 < isr
      → n.rxqueue.size ≤ length bs + 33
      → n.rxqueue.used_idx ≤ n.rxqueue.avail_idx
      → Holds popped (b ∷ bs) n.rxqueue
      → suc (length bs) ≤ n.rxqueue.size
      → n.rxqueue.used_idx ≡ (popped + 1) % 2 ^ 16
      → AreUsed n.rxqueue.used_ring n.rxqueue.size popped 1
      → 42 ≤ length (slice (slide_position b 12))
      → All (λ x. x < 256) (slice (slide_position b 12))
      → (destination (frame_in netif b) ≡ replicate 6 0xff)
        ⊎ (Mac.new (destination (frame_in netif b)) ≡ netif.macaddr)
      → type_of (frame_in netif b) ≡ 0x08 ∷ 0x06 ∷ []
      → le16_at 6 (packet_of (frame_in netif b)) ≡ 0x0100
      → Ipv4Address.from_array (field 24 4 (packet_of (frame_in netif b))) ≡ ip
      → (q : Virtqueue) × Holds (popped + 1) bs q
        × (interrupt_handler dev pointer memory rings tscnum (proc_nodes pre_xmit) net_ifaces n st
            ≡ some (
              record n { virtio = s; rxqueue = q },
              xmit netif
                  (arp_reply netif.macaddr.addr (packet_of (frame_in netif b))
                    ++ drop 42 (pre_xmit netif 42))
                  (knowing netif
                    (packet_of (frame_in netif b))
                    (record st { tables = learn_all (frame_in netif b ∷ []) st.tables })),
            ))
  interrupt_answered net_ifaces netif ip n st s isr popped b bs iface ready mac room acked some_isr
        many behind h fits used ids long bytes for_us arp_type oper asked =
      let (q, holds, returned) =
        interrupt_handler-frames dev pointer memory rings tscnum (proc_nodes pre_xmit)
          (ethernet_process (ip_nodes pre_xmit)) net_ifaces netif n st s isr popped 1 (b ∷ bs) refl
          iface acked some_isr (omega (arith, many)) behind h fits (omega arith) (omega arith) used
          ids in
      (
        q,
        holds,
        returned
            ∙ bind_some _
                (ethernet_request pre_xmit netif ip (frame_in netif b) st ready mac room long bytes
                  for_us arp_type oper asked)
                refl,
      )
