-- ===== src/Net/Ipv6In.antt =====
-- `Ipv6In` of src/net/ipv6.rs.
use urchin.Prelude.{
  ℕ, List, [], ◌∷◌, ◌++◌, Option, none, some, not, ◌==◌, if◌then◌else◌, get_or, bit_and, ◌>>=◌,
}
use urchin.Devices.Buffer.{slice}
use urchin.Net.Ipv6Address
use urchin.Net.Fib.{ForwardInformationBase, local, find_ipv6_fib}
use urchin.Net.Ipv6Address.{Ipv6Address}
use urchin.Net.Frame.{field, view}
use urchin.Net.Node.{DataFromNetif, NetState, Node, NodeName, icmpv6_in_local, forward}

abbrev pub sort_icmpv6 :
    Option (ForwardInformationBase Ipv6Address)
    → ℕ
    → DataFromNetif
    → List DataFromNetif
    → List DataFromNetif
sort_icmpv6 none nexthdr frame icmp_pkts = icmp_pkts
sort_icmpv6 (some fib) nexthdr frame icmp_pkts = elim fib.fib_type [
  | local ↦ if nexthdr == 58 then icmp_pkts ++ (frame ∷ []) else icmp_pkts
  | _ ↦ icmp_pkts
]

pub ipv6_loop :
    (NodeName → Option Node) → List DataFromNetif → List DataFromNetif → NetState → Option NetState
ipv6_loop nodes [] icmp_pkts st = some st
ipv6_loop nodes (frame ∷ buff) icmp_pkts st = do
  ipv6_hdr ← view 14 40 (slice frame.buffer)
  fib ← find_ipv6_fib (Ipv6Address.from_array (field 24 16 ipv6_hdr)) 128 st.tables
  let icmp_pkts' = sort_icmpv6 fib (get_or ipv6_hdr 6 0) frame icmp_pkts
  let irregular = ipv6_loop nodes buff icmp_pkts st
  let regular =
      forward (nodes icmpv6_in_local) icmp_pkts' st >>= λ st'. ipv6_loop nodes buff icmp_pkts' st'
  if not (bit_and (get_or ipv6_hdr 0 0) 0xf0 == 0x60) then irregular else regular

pub ipv6_process : (NodeName → Option Node) → Node
unfolding ipv6_loop
ipv6_process nodes buff st = ipv6_loop nodes buff [] st
