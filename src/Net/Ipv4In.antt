-- ===== src/Net/Ipv4In.antt =====
-- `Ipv4In` of src/net/ipv4.rs.
pub mod Repeat
mod Tests
use urchin.Prelude.{
  ℕ, List, [], ◌∷◌, ◌++◌, Option, none, some, Bool, true, false, not, ◌==◌, if◌then◌else◌, get_or,
  bit_and, ◌>>=◌,
}
use urchin.Devices.Buffer.{slice}
use urchin.Net.Ipv4Address
use urchin.Net.Fib.{ForwardInformationBase, FibType, local, find_ipv4_fib}
use urchin.Net.Ipv4Address.{Ipv4Address}
use urchin.Net.Frame.{field, view}
use urchin.Net.Node.{DataFromNetif, NetState, Node, NodeName, icmpv4_in_local, forward}

-- The `if let Some(fib)` of `process`: a local ICMP packet joins the vector, and no other does.
abbrev pub sort_icmp :
    Option (ForwardInformationBase Ipv4Address)
    → ℕ
    → DataFromNetif
    → List DataFromNetif
    → List DataFromNetif
sort_icmp none proto frame icmp_pkts = icmp_pkts
sort_icmp (some fib) proto frame icmp_pkts = elim fib.fib_type [
  | local ↦ if proto == 0x01 then icmp_pkts ++ (frame ∷ []) else icmp_pkts
  | _ ↦ icmp_pkts
]

-- The loop of `process`, which passes the vector on in every round.
pub ipv4_loop :
    (NodeName → Option Node) → List DataFromNetif → List DataFromNetif → NetState → Option NetState
ipv4_loop nodes [] icmp_pkts st = some st
ipv4_loop nodes (frame ∷ buff) icmp_pkts st = do
  ipv4_hdr ← view 14 20 (slice frame.buffer)
  fib ← find_ipv4_fib (Ipv4Address.from_array (field 16 4 ipv4_hdr)) 0xffff_ffff st.tables
  let icmp_pkts' = sort_icmp fib (get_or ipv4_hdr 9 0) frame icmp_pkts
  let irregular = ipv4_loop nodes buff icmp_pkts st
  let regular =
      forward (nodes icmpv4_in_local) icmp_pkts' st >>= λ st'. ipv4_loop nodes buff icmp_pkts' st'
  if not (bit_and (get_or ipv4_hdr 0 0) 0xf0 == 0x40) then irregular else regular

pub ipv4_process : (NodeName → Option Node) → Node
unfolding ipv4_loop
ipv4_process nodes buff st = ipv4_loop nodes buff [] st
