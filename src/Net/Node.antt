-- ===== src/Net/Node.antt =====
-- What the processing nodes of src/net share: the frames they are given (src/net/mod.rs), the state
-- they change, and the table of nodes of src/lib.rs.
use urchin.Prelude.{ℕ, List, [], ◌∷◌, ◌++◌, Option, none, some}
use urchin.Devices.Buffer.{Buffer}
use urchin.Devices.Netif.{Netif}
use urchin.Net.Fib.{Tables}

pub record DataFromNetif : Type 0 where
  pub netif : Netif
  pub buffer : Buffer

-- The tables, and the slices given to `xmit` with their interface, oldest first.
pub record NetState : Type 0 where
  pub tables : Tables
  pub sent : List (Netif × List ℕ)

abbrev pub Node : Type 0
Node = List DataFromNetif → NetState → Option NetState

-- The keys of `PROC_NODES`.
pub data NodeName : Type 0 where
  ethernet_in arp_in ipv4_in icmpv4_in_local ipv6_in icmpv6_in_local : NodeName

-- `if pkts.len() > 0 { if let Some(node_ref) = PROC_NODES.get(name) { node_ref.process(&pkts) } }`
abbrev pub forward : Option Node → List DataFromNetif → NetState → Option NetState
forward process [] st = some st
forward none (p ∷ pkts) st = some st
forward (some process) (p ∷ pkts) st = process (p ∷ pkts) st

abbrev pub xmit : Netif → List ℕ → NetState → NetState
xmit netif slice st = record st { sent = st.sent ++ ((netif, slice) ∷ []) }
