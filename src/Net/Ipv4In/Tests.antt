-- ===== src/Net/Ipv4In/Tests.antt =====
-- Two echo requests in one batch.
use urchin.Prelude.{Option, none, some}
use urchin.Devices.Netif.{Netif}
use urchin.Net.Ipv4Address
use urchin.Net.Node.{Node, NodeName, icmpv4_in_local}
use urchin.Net.Icmpv4.{icmpv4_process}
use urchin.Net.Sample.{blank}

abbrev nodes : NodeName → Option Node
nodes icmpv4_in_local = some (icmpv4_process blank)
nodes _ = none
