-- ===== src/Net/Icmpv4.antt =====
-- `Icmpv4InLocal` and `generate_ipv4_header` of src/net/ipv4.rs. `pre_xmit` is the driver's.
pub mod Copy
pub mod Headers
pub mod Plain
pub mod Fields
pub mod Built
pub mod Answer
pub mod Reply
pub mod Tests
use urchin.Prelude.{
  ℕ, zero, suc, ◌+◌, ◌-◌, ◌*◌, ◌/◌, List, [], ◌∷◌, ◌++◌, Option, none, some, Bool, true, false,
  ◌==◌, if◌then◌else◌, get_or, get_elem?, write_at, usize, sub_usize, u8, bit_and, bit_or, ◌<<<◌,
  ◌>>>◌, ◌>>=◌,
}
use urchin.Devices.Buffer.{slice}
use urchin.Devices.Netif.{Netif}
use urchin.Net.Mac
use urchin.Net.Ipv4Address
use urchin.Net.Ipv4Address.{Ipv4Address}
use urchin.Net.Frame.{field, view, overlay, at_offset, le16}
use urchin.Net.Node.{DataFromNetif, NetState, Node, xmit}
use urchin.Net.Ethernet.{generate_ether_header}
use urchin.Net.Checksum.{sum_words, finish, swapped}

abbrev pub generate_ipv4_header : List ℕ → ℕ → Ipv4Address → Ipv4Address → List ℕ → Option (List ℕ)
generate_ipv4_header len proto src_ip dest_ip buffer =
    overlay
      ((0x45 ∷ 0 ∷ [])
        ++ len
        ++ le16 0
        ++ le16 0x0040
        ++ (64 ∷ proto ∷ [])
        ++ le16 0
        ++ Ipv4Address.get_array src_ip
        ++ Ipv4Address.get_array dest_ip)
      buffer

-- `for i in i..i + left { respslice[i] = slice[i] }`
unfoldable pub copy_payload : ℕ → ℕ → List ℕ → List ℕ → Option (List ℕ)
copy_payload zero i slice respslice = some respslice
copy_payload (suc left) i slice respslice = do
  byte ← get_elem? slice i
  respslice' ← write_at respslice i byte
  copy_payload left (i + 1) slice respslice'

-- The echo reply, from the bytes of the request; `ihl` is the length of its IP header.
module _ (pre_xmit : Netif → ℕ → List ℕ) where
  pub echo_reply : Netif → List ℕ → List ℕ → List ℕ → ℕ → Option (List ℕ)
  unfolding copy_payload
  echo_reply netif slice ipv4_hdr icmpv4_hdr ihl = do
    let len = field 2 2 ipv4_hdr
    let length = sub_usize (bit_or (get_or len 0 0 <<< 8) (get_or len 1 0)) ihl
    let end = usize (14 + 20 + length)
    let blank = pre_xmit netif end
    with_ether ←
        generate_ether_header blank netif.macaddr (Mac.new (field 6 6 slice)) (0x08 ∷ 0x00 ∷ [])
    with_ipv4 ←
        at_offset 14
          (generate_ipv4_header len 0x01 (Ipv4Address.from_array (field 16 4 ipv4_hdr))
            (Ipv4Address.from_array (field 12 4 ipv4_hdr)))
          with_ether
    with_icmp ←
        at_offset (14 + 20)
          (overlay ((0 ∷ 0 ∷ []) ++ le16 0 ++ field 4 2 icmpv4_hdr ++ field 6 2 icmpv4_hdr))
          with_ipv4
    copied ← copy_payload (end - (14 + 20 + 8)) (14 + 20 + 8) slice with_icmp
    csum_icmp ← sum_words (end / 2 - (14 + 20) / 2) ((14 + 20) / 2) copied 0
    with_csum ← at_offset (14 + 20 + 2) (overlay (le16 (swapped (finish csum_icmp)))) copied
    csum_ipv4 ← sum_words (end / 2 - 14 / 2) (14 / 2) with_csum 0
    with_hi ← write_at with_csum 24 (u8 (finish csum_ipv4 >>> 8))
    write_at with_hi 25 (u8 (finish csum_ipv4))

  pub icmpv4_one : DataFromNetif → NetState → Option NetState
  unfolding echo_reply
  icmpv4_one frame st = do
    let bytes = slice frame.buffer
    ipv4_hdr ← view 14 20 bytes
    let ihl = bit_and (get_or ipv4_hdr 0 0) 0x0f * 4
    icmpv4_hdr ← view (14 + ihl) 8 bytes
    let reply = echo_reply frame.netif bytes ipv4_hdr icmpv4_hdr ihl
    let answered = reply >>= λ respslice. some (xmit frame.netif respslice st)
    if get_or icmpv4_hdr 0 0 == 0x08 then answered else some st

  unfoldable pub icmpv4_process : Node
  unfolding icmpv4_one
  icmpv4_process [] st = some st
  icmpv4_process (frame ∷ buff) st = icmpv4_one frame st >>= λ st'. icmpv4_process buff st'
