-- ===== src/Kernel/Nodes.antt =====
-- `PROC_NODES` of src/lib.rs, as `start_rust` fills it.
use urchin.Prelude.{ℕ, List, Option, none, some}
use urchin.Devices.Netif.{Netif}
use urchin.Net.Node.{
  Node, NodeName, ethernet_in, arp_in, ipv4_in, icmpv4_in_local, ipv6_in, icmpv6_in_local,
}
use urchin.Net.Ethernet.{ethernet_process}
use urchin.Net.Arp.{arp_process}
use urchin.Net.Ipv4In.{ipv4_process}
use urchin.Net.Icmpv4.{icmpv4_process}
use urchin.Net.Ipv6In.{ipv6_process}
use urchin.Net.Icmpv6.{icmpv6_process}

module _ (pre_xmit : Netif → ℕ → List ℕ) where
  -- The nodes that the nodes of IPv4 and IPv6 look for, and that look for none.
  abbrev pub local_nodes : NodeName → Option Node
  local_nodes ethernet_in = none
  local_nodes arp_in = some (arp_process pre_xmit)
  local_nodes ipv4_in = none
  local_nodes icmpv4_in_local = some (icmpv4_process pre_xmit)
  local_nodes ipv6_in = none
  local_nodes icmpv6_in_local = some (icmpv6_process pre_xmit)

  -- Those that the node of Ethernet looks for.
  abbrev pub ip_nodes : NodeName → Option Node
  ip_nodes ipv4_in = some (ipv4_process local_nodes)
  ip_nodes ipv6_in = some (ipv6_process local_nodes)
  ip_nodes name = local_nodes name

  abbrev pub proc_nodes : NodeName → Option Node
  proc_nodes ethernet_in = some (ethernet_process ip_nodes)
  proc_nodes name = ip_nodes name
