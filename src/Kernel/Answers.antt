-- ===== src/Kernel/Answers.antt =====
-- The buffers of the driver, as the nodes see them.
use urchin.Prelude.{ℕ, ◌≤◌, ◌≡◌, arith, ap, List, [], Option, none, some, length}
use urchin.Devices.Buffer.{Buffer, Layout, slice}
use urchin.Devices.Netif.{Netif}
use urchin.Devices.VirtioNet.{pre_xmit}
use urchin.Devices.VirtioNet.Transmit.{pre_xmit_lem}
use urchin.Net.Mac.{mac_ord}
use urchin.Net.Ipv4Address.{ipv4_ord}

-- The slice that a node gets from the driver: of the buffer that `pre_xmit` returns.
abbrev slice_of : Option Buffer → List ℕ
slice_of none = []
slice_of (some b) = slice b

abbrev pub driver_slice : (Layout → ℕ) → (Layout → List ℕ) → Netif → ℕ → List ℕ
driver_slice pointer memory netif size = slice_of (pre_xmit pointer memory size)

pub driver_slice_room :
    (pointer : Layout → ℕ) (memory : Layout → List ℕ)
    → ((l : Layout) → length (memory l) ≡ l.size)
    → (netif : Netif) → 42 ≤ length (driver_slice pointer memory netif 42)
driver_slice_room pointer memory filled netif =
    let (b, returned, room, zeros, at, told) =
      pre_xmit_lem pointer memory filled 42 (omega arith) in
    omega (arith, room, ap (λ o. length (slice_of o)) returned)
