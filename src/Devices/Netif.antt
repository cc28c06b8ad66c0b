-- ===== src/Devices/Netif.antt =====
-- An `Arc<dyn Netif>` of src/devices/netif.rs, as the network code sees it: its number and its
-- hardware address. What `pre_xmit` and `xmit` do to a frame stands with the code that calls them.
use urchin.Prelude.{ℕ}
use urchin.Net.Mac.{MacAddress}

pub record Netif : Type 0 where
  pub id : ℕ
  pub macaddr : MacAddress
