-- ===== src/Net/Ethernet.antt =====
-- `EthernetIn` and `generate_ether_header` of src/net/ethernet.rs.
pub mod Own
pub mod Accept
mod Tests
use urchin.Prelude.{
  ℕ, List, [], ◌∷◌, ◌++◌, Option, none, some, Bool, true, false, ◌&&◌, ◌==◌, if◌then◌else◌, get_or,
  replicate, ◌>>=◌,
}
use urchin.Prelude.Map.{get}
use urchin.Devices.Buffer.{slice}
use urchin.Net.Mac
use urchin.Net.Mac.{MacAddress, mac_ord}
use urchin.Net.Fib.{Tables, AdjacentInformation, register_macaddress}
use urchin.Net.Frame.{field, view, overlay, same_bytes}
use urchin.Net.Node.{DataFromNetif, NetState, Node, NodeName, arp_in, ipv4_in, ipv6_in, forward}

abbrev pub generate_ether_header : List ℕ → MacAddress → MacAddress → List ℕ → Option (List ℕ)
generate_ether_header buffer src_addr dest_addr frame_type =
    overlay (Mac.get_array dest_addr ++ Mac.get_array src_addr ++ frame_type) buffer

-- The three vectors of `process`.
pub record Batch : Type 0 where
  pub arp_pkts : List DataFromNetif
  pub ipv4_pkts : List DataFromNetif
  pub ipv6_pkts : List DataFromNetif

-- The closure `proc_frame`.
abbrev pub proc_frame : List ℕ → DataFromNetif → Batch → Batch
proc_frame frame_type frame b =
    if same_bytes frame_type (0x08 ∷ 0x06 ∷ [])
    then record b { arp_pkts = b.arp_pkts ++ (frame ∷ []) }
    else if same_bytes frame_type (0x08 ∷ 0x00 ∷ [])
    then record b { ipv4_pkts = b.ipv4_pkts ++ (frame ∷ []) }
    else if same_bytes frame_type (0x86 ∷ 0xDD ∷ [])
    then record b { ipv6_pkts = b.ipv6_pkts ++ (frame ∷ []) }
    else b

-- One round of the loop: learn the source, and look at the destination.
pub sort_one : DataFromNetif → Batch → Tables → Option (Batch × Tables)
sort_one frame b t = do
  header ← view 0 14 (slice frame.buffer)
  let dest_addr = field 0 6 header
  let frame_type = field 12 2 header
  let t' = register_macaddress (Mac.new (field 6 6 header)) frame.netif false none t
  let b' =
      if same_bytes dest_addr (replicate 6 0xff)
      then proc_frame frame_type frame b
      else elim (get (Mac.new dest_addr) t'.mac_addr_table) [
        | some adj ↦ if adj.is_local then proc_frame frame_type frame b else b
        | none ↦ b
      ]
  some (b', t')

pub sort_frames : List DataFromNetif → Batch → Tables → Option (Batch × Tables)
sort_frames [] b t = some (b, t)
sort_frames (frame ∷ buff) b t = sort_one frame b t >>= λ (b', t'). sort_frames buff b' t'

abbrev pub empty_batch : Batch
empty_batch = record { arp_pkts = []; ipv4_pkts = []; ipv6_pkts = [] }

pub ethernet_process : (NodeName → Option Node) → Node
unfolding sort_one sort_frames
ethernet_process nodes buff st = do
  (b, t) ← sort_frames buff empty_batch st.tables
  st' ← forward (nodes arp_in) b.arp_pkts (record st { tables = t })
  st'' ← forward (nodes ipv4_in) b.ipv4_pkts st'
  forward (nodes ipv6_in) b.ipv6_pkts st''
