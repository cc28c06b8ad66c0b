-- ===== src/Devices/VirtioNet.antt =====
-- `VirtioNet` of src/devices/virtio/net.rs, on any transport. The allocator's answers are parameters:
-- `pointer` and `memory` for the buffer of the n-th call, `rings` for the memory of a queue.
pub mod Negotiate
pub mod Transmit
pub mod Refill
pub mod Receive
pub mod Fill
pub mod Id
pub mod Tests
use urchin.Prelude.{
  ℕ, zero, suc, ◌+◌, ◌*◌, ◌/◌, List, [], ◌∷◌, ◌++◌, map, Option, none, some, Bool, true, false, not,
  ◌&&◌, ◌||◌, ◌==◌, ltb, if◌then◌else◌, u16, usize, sub_u16, bit_and, bit_or, bit_xor, ◌>>>◌,
  get_elem?, length, take, drop, replicate, u8, ◌>>=◌,
}
use urchin.Devices.Buffer
use urchin.Devices.Buffer.{
  Buffer, Layout, NewResult, ok, layout_error, panic, slide_position, slice,
}
use urchin.Devices.Virtqueue
use urchin.Devices.Virtqueue.{Virtqueue, VirtqueueUsedElement, get_avail_free_size, push, pop}
use urchin.Devices.VirtioDevice.{VirtioDevice}
use urchin.Devices.Netif.{Netif}
use urchin.Net.Mac
use urchin.Net.Mac.{MacAddress}
use urchin.Net.Frame.{overlay}
use urchin.Net.Node.{DataFromNetif, NetState, Node, NodeName, ethernet_in}

abbrev pub align : ℕ
align = 4096

pub record VirtioNet (S : Type 0) : Type 0 where
  pub id : ℕ
  pub virtio : S
  pub rxqueue : Virtqueue
  pub txqueue : Virtqueue
  pub cxqueue : Virtqueue
  pub macaddr : MacAddress
  pub flag_csum : Bool
  pub flag_guest_csum : Bool
  pub flag_mac : Bool
  pub flag_guest_tso4 : Bool
  pub flag_guest_ecn : Bool
  pub flag_guest_ufo : Bool
  pub flag_host_tso4 : Bool
  pub flag_host_ecn : Bool
  pub flag_mergeable_rxbufs : Bool
  pub flag_status : Bool

-- The features that the driver knows: those of virtio itself and those of virtio-net.
abbrev pub drv_features : ℕ
drv_features = bit_or 0x30000000 0x1AEA3

abbrev pub has_feature : ℕ → ℕ → Bool
has_feature features mask = not (bit_and features mask == 0)

-- The address that is generated where the device has none: three bytes of the time stamp counter.
abbrev pub random_macaddr : ℕ → List ℕ
random_macaddr tscnum =
    let byte = λ (k : ℕ). bit_and (tscnum >>> k) 0xff in
    0x00
    ∷ 0x16
    ∷ 0x3e
    ∷ u8 (bit_xor (bit_xor (byte 0) (byte 40)) (byte 16))
    ∷ u8 (bit_xor (bit_xor (byte 56) (byte 32)) (byte 8))
    ∷ u8 (bit_xor (bit_xor (byte 48) (byte 24)) (byte 0))
    ∷ []

abbrev pub buffer_size : Bool → ℕ
buffer_size is_large = if is_large then 17 * align else 1 * align

module _ (pointer : ℕ → Layout → ℕ) (memory : ℕ → Layout → List ℕ) where
  -- `left` rounds of the loop that fills a receive queue, the next of which is round `i`.
  pub fill_loop : ℕ → ℕ → ℕ → Virtqueue → Option Virtqueue
  fill_loop zero i size q = some q
  fill_loop (suc left) i size q = elim (Buffer.new (pointer i) (memory i) size align) [
    | ok buffer ↦ push buffer false q >>= λ q'. fill_loop left (i + 1) size q'
    | layout_error ↦ fill_loop left (i + 1) size q
    | panic ↦ none
  ]

module _ {S : Type 0} (dev : VirtioDevice S) where
  -- The closure `setup_queue`: the new queue, and the state after it is set up.
  pub setup_queue :
      (ℕ → ℕ → ℕ × List ℕ × List VirtqueueUsedElement) → ℕ → Bool → S → Option (Virtqueue × S)
  setup_queue rings idx need_interrupt s = do
    s₁ ← dev.select_queue idx s
    let size = dev.get_queue_size s₁
    let (base_addr, avail, used) = rings idx size
    let queue = Virtqueue.new base_addr avail used size (dev.get_indirect_buf_cap s₁) need_interrupt
    some (queue, dev.activate_queue idx (dev.setup_queue queue s₁))

  -- Reset, acknowledge, features: the features in use, and the state after the device has accepted
  -- them.
  pub negotiate : S → Option (ℕ × S)
  negotiate s =
      let s₁ = dev.set_status 0 s in
      let s₂ = dev.set_status (bit_or (dev.get_status s₁) 0x01) s₁ in
      let s₃ = dev.set_status (bit_or (dev.get_status s₂) 0x02) s₂ in
      let (dev_features, s₄) = dev.get_available_features s₃ in
      let subset_features = bit_and dev_features drv_features in
      let s₅ = dev.set_indirect_buf_cap (has_feature subset_features 0x10000000) s₄ in
      let s₆ = dev.set_event_idx_cap (has_feature subset_features 0x20000000) s₅ in
      let s₇ = dev.set_enabled_features subset_features s₆ in
      let s₈ = dev.set_status (bit_or (dev.get_status s₇) 0x08) s₇ in
      if dev.is_legacy s₇
      then some (subset_features, s₇)
      else if bit_and (dev.get_status s₈) 0x08 == 0x08
      then some (subset_features, s₈)
      else none

  abbrev pub config_macaddr : S → List ℕ
  config_macaddr s =
      dev.read_config 0 s
      ∷ dev.read_config 1 s
      ∷ dev.read_config 2 s
      ∷ dev.read_config 3 s
      ∷ dev.read_config 4 s
      ∷ dev.read_config 5 s
      ∷ []

  module _ (pointer : ℕ → Layout → ℕ) (memory : ℕ → Layout → List ℕ)
      (rings : ℕ → ℕ → ℕ × List ℕ × List VirtqueueUsedElement) (tscnum : ℕ) where
    pub new_net : ℕ → S → Option (VirtioNet S)
    unfolding setup_queue negotiate fill_loop
    new_net id s = do
      (features, s₁) ← negotiate s
      let flag_mac = has_feature features 0x000020
      let macaddr = Mac.new (if not flag_mac then random_macaddr tscnum else config_macaddr s₁)
      (rxqueue, s₂) ← setup_queue rings 0 true s₁
      (txqueue, s₃) ← setup_queue rings 1 false s₂
      (cxqueue, s₄) ← setup_queue rings 2 true s₃
      let flag_guest_tso4 = has_feature features 0x000080
      let flag_guest_ufo = has_feature features 0x000400
      let flag_mergeable_rxbufs = has_feature features 0x008000
      let is_large = flag_mergeable_rxbufs && (flag_guest_tso4 || flag_guest_ufo)
      filled ←
          fill_loop pointer memory (get_avail_free_size rxqueue / 3) 0 (buffer_size is_large)
            rxqueue
      let s₅ = dev.kick_queue 0 s₄
      some (record {
        id = id;
        virtio = dev.set_status (bit_or (dev.get_status s₅) 0x04) s₅;
        rxqueue = filled;
        txqueue = txqueue;
        cxqueue = cxqueue;
        macaddr = macaddr;
        flag_csum = has_feature features 0x000001;
        flag_guest_csum = has_feature features 0x000002;
        flag_mac = flag_mac;
        flag_guest_tso4 = flag_guest_tso4;
        flag_guest_ecn = has_feature features 0x000200;
        flag_guest_ufo = flag_guest_ufo;
        flag_host_tso4 = has_feature features 0x000800;
        flag_host_ecn = has_feature features 0x002000;
        flag_mergeable_rxbufs = flag_mergeable_rxbufs;
        flag_status = has_feature features 0x010000;
      })

    -- `VirtioNet::new`: a device of another type is `some none`.
    unfoldable pub new : ℕ → S → Option (Option (VirtioNet S))
    unfolding new_net
    new id s =
        if dev.get_type s == 0x01 then (new_net id s >>= λ inst. some (some inst)) else some none

    pub fill_rx_queue : VirtioNet S → Option (VirtioNet S)
    unfolding fill_loop
    fill_rx_queue n =
        let size = sub_u16 (get_avail_free_size n.rxqueue) 1 in
        let is_large = n.flag_mergeable_rxbufs && (n.flag_guest_tso4 || n.flag_guest_ufo) in
        let filled = fill_loop pointer memory size 0 (buffer_size is_large) n.rxqueue in
        if ltb 32 size
        then (filled >>= λ q. some (record n { rxqueue = q; virtio = dev.kick_queue 0 n.virtio }))
        else some n

    -- `interrupt_handler`; what the nodes send is in the state of the network.
    pub interrupt_handler :
        (NodeName → Option Node)
        → List Netif
        → VirtioNet S
        → NetState
        → Option (VirtioNet S × NetState)
    unfolding fill_rx_queue
    interrupt_handler nodes net_ifaces n st = do
      let (isr, s) = dev.read_and_ack_isr n.virtio
      let acked = record n { virtio = s }
      let received = do
        refilled ← fill_rx_queue acked
        (rxdata, q) ← pop refilled.rxqueue
        let n' = record refilled { rxqueue = q }
        st' ← elim (get_elem? net_ifaces n.id) [
          | none ↦ some st
          | some netif ↦ elim (nodes ethernet_in) [
            | none ↦ some st
            | some process ↦
                process
                  (map (λ pkt. record { netif = netif; buffer = slide_position pkt 12 }) rxdata) st
          ]
        ]
        some (n', st')
      if ltb 0 isr then received else some (acked, st)

  pub xmit : Buffer → VirtioNet S → Option (VirtioNet S)
  xmit buffer n = push buffer true n.txqueue >>= λ q.
      some (record n { txqueue = q; virtio = dev.kick_queue 1 n.virtio })

-- The bytes of the slice are set.
abbrev pub with_slice : Buffer → List ℕ → Buffer
with_slice b bytes = record b {
  memory = take b.position b.memory ++ (bytes ++ drop (b.position + length bytes) b.memory);
}

-- A virtio-net header of zeros in front, and the position behind it.
pub with_header : NewResult → Option Buffer
with_header (ok b) =
    overlay (replicate 12 0) (slice b) >>= λ bytes. some (slide_position (with_slice b bytes) 12)
with_header layout_error = none
with_header panic = none

pub pre_xmit : (Layout → ℕ) → (Layout → List ℕ) → ℕ → Option Buffer
unfolding with_header
pre_xmit pointer memory size = with_header (Buffer.new pointer memory (usize (size + 12)) align)
