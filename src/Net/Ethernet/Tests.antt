-- ===== src/Net/Ethernet/Tests.antt =====
-- A broadcast request on its way to the ARP node.
use urchin.Prelude.{◌≡◌, arith, [], ◌∷◌, Option, none, some, ◌>>=◌}
use urchin.Prelude.Map.{get}
use urchin.Devices.Buffer.{slice, slice_len}
use urchin.Net.Mac.{mac_ord}
use urchin.Net.Node.{Node, NodeName, arp_in, ipv4_in, ipv6_in, forward}
use urchin.Net.Ethernet.{ethernet_process}
use urchin.Net.Ethernet.Own.{IsPermanent, accepted, learn_all}
use urchin.Net.Ethernet.Accept.{ethernet_process_lem}
use urchin.Net.Sample.{tables, start, frame_of, request_bytes, echo_bytes, netif}

-- A node that sends the slice of each frame back.
abbrev mirror : Node
mirror [] st = some st
mirror (frame ∷ buff) st = mirror buff (record st { sent = (netif, slice frame.buffer) ∷ st.sent })

abbrev nodes : NodeName → Option Node
nodes arp_in = some mirror
nodes _ = none

tables-IsPermanent : IsPermanent tables.mac_addr_table
unfolding get
tables-IsPermanent j adj e = ground arith

ethernet_process_lem_example :
    let buff = frame_of request_bytes ∷ frame_of echo_bytes ∷ [] in
    let own = tables.mac_addr_table in
    ethernet_process nodes buff start ≡ (
      forward
        (nodes arp_in)
        (accepted own (0x08 ∷ 0x06 ∷ []) buff)
        (record start { tables = learn_all buff tables })
      >>= (λ st'. forward (nodes ipv4_in) (accepted own (0x08 ∷ 0x00 ∷ []) buff) st' >>= λ st''.
          forward (nodes ipv6_in) (accepted own (0x86 ∷ 0xDD ∷ []) buff) st''))
unfolding slice slice_len
ethernet_process_lem_example =
    ethernet_process_lem nodes (frame_of request_bytes ∷ frame_of echo_bytes ∷ []) start
      tables-IsPermanent (omega arith, (omega arith, tt))
