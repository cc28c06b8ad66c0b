-- ===== src/Net/Arp/Spoof.antt =====
-- An ARP packet takes an address away from the kernel.
use urchin.Prelude.{
  ℕ, ◌≤◌, ◌<◌, ◌≡◌, refl, ap, ◌∙◌, List, [], ◌∷◌, Option, some, false, length, All,
}
use urchin.Devices.Buffer.{slice}
use urchin.Devices.Netif.{Netif}
use urchin.Net.Ipv4Address
use urchin.Net.Fib.{find_ipv4_fib}
use urchin.Net.Frame.{field}
use urchin.Net.Node.{DataFromNetif, NetState, Node, NodeName}
use urchin.Net.Ipv4In.{ipv4_process}
use urchin.Net.Ipv4In.Repeat.{header_of, ipv4_process-passes}
use urchin.Net.Arp.{arp_one}
use urchin.Net.Arp.Reply.{knowing, packet_of}
use urchin.Net.Arp.Learn.{asks_for_us, sender_route, arp_one_quiet}

-- After an ARP packet that asks for none of the kernel's addresses and names any address as its sender's,
-- be it one of the kernel's own, the node of IPv4 passes over every frame for that address: none is
-- answered, and nothing is sent.
pub spoofed_passes :
    (pre_xmit : Netif → ℕ → List ℕ) (nodes : NodeName → Option Node) (spoof frame : DataFromNetif)
    (st : NetState)
    → 42 ≤ length (slice spoof.buffer)
    → All (λ b. b < 256) (slice spoof.buffer)
    → length st.tables.ipv4_fib_index ≡ 33
    → asks_for_us (packet_of spoof) (knowing spoof.netif (packet_of spoof) st).tables ≡ false
    → 34 ≤ length (slice frame.buffer)
    → Ipv4Address.from_array (field 16 4 (header_of frame))
      ≡ Ipv4Address.from_array (field 14 4 (packet_of spoof))
    → (st' : NetState) × (arp_one pre_xmit spoof st ≡ some st')
      × (st'.sent ≡ st.sent)
      × (ipv4_process nodes (frame ∷ []) st' ≡ some st')
spoofed_passes pre_xmit nodes spoof frame st long bytes size quiet long' same =
    let (st', learned, silent, found) = arp_one_quiet pre_xmit spoof st long bytes size quiet in
    (
      st',
      learned,
      silent,
      ipv4_process-passes nodes frame st' (sender_route spoof.netif (packet_of spoof)) long'
          (ap (λ a. find_ipv4_fib a 0xffff_ffff st'.tables) same ∙ found) refl,
    )
