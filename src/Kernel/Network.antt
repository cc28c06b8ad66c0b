-- ===== src/Kernel/Network.antt =====
-- The network devices as `NET_IFACES` of src/lib.rs and the table of interrupt handlers share them.
use urchin.Prelude.{ℕ, List, Option, none, some, map, get_elem?, set, ◌>>=◌}
use urchin.Devices.Buffer.{Layout}
use urchin.Devices.Netif.{Netif}
use urchin.Devices.Virtqueue.{VirtqueueUsedElement}
use urchin.Devices.VirtioDevice.{VirtioDevice}
use urchin.Devices.VirtioNet.{VirtioNet, interrupt_handler}
use urchin.Net.Node.{NetState}
use urchin.Kernel.Nodes.{proc_nodes}

-- An `Arc<VirtioNet>` in the table of handlers: which of the drivers it is, and its interrupt line.
pub record Device : Type 0 where
  pub slot : ℕ
  pub irq : ℕ

pub record Network (S : Type 0) : Type 0 where
  pub drivers : List (VirtioNet S)
  pub net : NetState

abbrev pub netif_of : {S : Type 0} → VirtioNet S → Netif
netif_of n = record { id = n.id; macaddr = n.macaddr }

module _ {S : Type 0} (dev : VirtioDevice S) (pointer : ℕ → Layout → ℕ)
    (memory : ℕ → Layout → List ℕ) (rings : ℕ → ℕ → ℕ × List ℕ × List VirtqueueUsedElement)
    (tscnum : ℕ) (pre_xmit : Netif → ℕ → List ℕ) where
  -- The interrupt handler of a device, on the state that all of them share.
  unfoldable pub device_handler : Device → Network S → Option (Network S)
  device_handler d w = elim (get_elem? w.drivers d.slot) [
    | none ↦ some w
    | some n ↦
        interrupt_handler dev pointer memory rings tscnum (proc_nodes pre_xmit)
          (map netif_of w.drivers) n w.net
        >>= λ (n', st). some (record w { drivers = set w.drivers d.slot n'; net = st })
  ]
