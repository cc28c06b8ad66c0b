-- ===== src/Net/Arp.antt =====
-- `ArpIn` and `generate_arp_packet` of src/net/arp.rs. `pre_xmit` is the driver's: the slice of a new
-- buffer with room for the number of bytes.
pub mod Reply
pub mod Learn
pub mod Spoof
mod Tests
use urchin.Prelude.{
  ℕ, ◌+◌, List, [], ◌∷◌, ◌++◌, Option, none, some, Bool, true, false, ◌==◌, if◌then◌else◌, ◌>>=◌,
}
use urchin.Prelude.Map.{get}
use urchin.Devices.Buffer.{slice}
use urchin.Devices.Netif.{Netif}
use urchin.Net.Mac
use urchin.Net.Mac.{MacAddress}
use urchin.Net.Ipv4Address
use urchin.Net.Ipv4Address.{Ipv4Address, ipv4_ord}
use urchin.Net.Fib.{
  Tables, AdjacentInformation, adjacent_resolved, register_ipv4_fib, register_ipv4_adjacent,
}
use urchin.Net.Frame.{field, view, overlay, at_offset, le16, le16_at}
use urchin.Net.Node.{DataFromNetif, NetState, Node, xmit}
use urchin.Net.Ethernet.{generate_ether_header}

abbrev pub generate_arp_packet :
    ℕ → MacAddress → Ipv4Address → MacAddress → Ipv4Address → List ℕ → Option (List ℕ)
generate_arp_packet oper src_mac src_ip dest_mac dest_ip buffer =
    overlay
      (le16 0x0100
        ++ le16 0x0008
        ++ (6 ∷ 4 ∷ [])
        ++ le16 oper
        ++ Mac.get_array src_mac
        ++ Ipv4Address.get_array src_ip
        ++ Mac.get_array dest_mac
        ++ Ipv4Address.get_array dest_ip)
      buffer

-- The block that registers the sender.
pub arp_learn : Netif → List ℕ → Tables → Option Tables
arp_learn netif packet t = do
  let src_mac = Mac.new (field 8 6 packet)
  let src_ip = Ipv4Address.from_array (field 14 4 packet)
  t' ←
      register_ipv4_fib src_ip 0xffff_ffff
        (record {
          nexthop_macaddress = src_mac;
          nexthop_address = src_ip;
          netif = netif;
          fib_type = adjacent_resolved;
        })
        t
  some (
      register_ipv4_adjacent src_ip
        (record { mac_address = src_mac; netif = netif; is_local = false; expire_time = none }) t')

module _ (pre_xmit : Netif → ℕ → List ℕ) where
  -- The reply to a request for an address of the interface.
  pub arp_respond : Netif → List ℕ → NetState → Option NetState
  arp_respond netif packet st = do
    let dest_ip = Ipv4Address.from_array (field 24 4 packet)
    let src_mac = Mac.new (field 8 6 packet)
    let src_ip = Ipv4Address.from_array (field 14 4 packet)
    let respslice = pre_xmit netif (14 + 28)
    with_ether ← generate_ether_header respslice netif.macaddr src_mac (0x08 ∷ 0x06 ∷ [])
    with_arp ←
        at_offset 14 (generate_arp_packet 0x0200 netif.macaddr dest_ip src_mac src_ip) with_ether
    some (xmit netif with_arp st)

  pub arp_one : DataFromNetif → NetState → Option NetState
  unfolding arp_learn arp_respond
  arp_one frame st = do
    packet ← view 14 28 (slice frame.buffer)
    t ← arp_learn frame.netif packet st.tables
    let st' = record st { tables = t }
    elim (get (Ipv4Address.from_array (field 24 4 packet)) t.ipv4_adjacent) [
      | none ↦ some st'
      | some adj ↦
          if adj.is_local
          then (if le16_at 6 packet == 0x0100 then arp_respond adj.netif packet st' else some st')
          else some st'
    ]

  pub arp_process : Node
  unfolding arp_one
  arp_process [] st = some st
  arp_process (frame ∷ buff) st = arp_one frame st >>= λ st'. arp_process buff st'
