-- ===== src/Net/Icmpv6.antt =====
-- `Icmpv6InLocal` and `generate_ipv6_header` of src/net/ipv6.rs. `pre_xmit` is the driver's.
pub mod Advertise
pub mod Headers
pub mod Reply
pub mod Answer
mod Tests
use urchin.Prelude.{
  ℕ, zero, suc, ◌+◌, ◌-◌, ◌*◌, ◌/◌, List, [], ◌∷◌, ◌++◌, Option, none, some, Bool, true, false,
  ◌==◌, if◌then◌else◌, get_or, get_elem?, replicate, usize, u32, bit_or, ◌<<<◌, ◌>>=◌,
}
use urchin.Devices.Buffer.{slice}
use urchin.Devices.Netif.{Netif}
use urchin.Net.Mac
use urchin.Net.Ipv6Address
use urchin.Net.Ipv6Address.{Ipv6Address, ipv6_ord}
use urchin.Net.Fib.{adjacent_resolved, register_ipv6_fib, register_ipv6_adjacent}
use urchin.Net.Frame.{field, view, overlay, at_offset, le16}
use urchin.Net.Node.{DataFromNetif, NetState, Node, xmit}
use urchin.Net.Ethernet.{generate_ether_header}
use urchin.Net.Checksum.{sum_words, finish, swapped}
use urchin.Net.Icmpv4.{copy_payload}

abbrev pub generate_ipv6_header : List ℕ → ℕ → Ipv6Address → Ipv6Address → List ℕ → Option (List ℕ)
generate_ipv6_header len nexthdr src_ip dest_ip buffer =
    overlay
      ((0x60 ∷ 0 ∷ 0 ∷ 0 ∷ [])
        ++ len
        ++ (nexthdr ∷ 0x80 ∷ [])
        ++ Ipv6Address.get_array src_ip
        ++ Ipv6Address.get_array dest_ip)
      buffer

-- The source that every reply has.
abbrev pub reply_source : List ℕ
reply_source = replicate 16 0x02

-- A neighbour advertisement: its target is registered.
pub advertised : DataFromNetif → NetState → Option NetState
advertised frame st = do
  let bytes = slice frame.buffer
  target ← view (14 + 40 + 12) 24 bytes
  let src_mac = Mac.new (field 18 6 target)
  let src_ip = Ipv6Address.from_array (field 0 16 target)
  t ←
      register_ipv6_fib src_ip 0xffff_ffff
        (record {
          nexthop_macaddress = src_mac;
          nexthop_address = src_ip;
          netif = frame.netif;
          fib_type = adjacent_resolved;
        })
        st.tables
  some (record st {
    tables =
        register_ipv6_adjacent src_ip
          (record {
            mac_address = src_mac;
            netif = frame.netif;
            is_local = false;
            expire_time = none;
          })
          t;
  })

module _ (pre_xmit : Netif → ℕ → List ℕ) where
  pub echo_reply6 : Netif → List ℕ → List ℕ → List ℕ → Option (List ℕ)
  unfolding copy_payload
  echo_reply6 netif slice ipv6_hdr icmpv6_hdr = do
    let len = field 4 2 ipv6_hdr
    let src = field 8 16 ipv6_hdr
    let length = bit_or (get_or len 0 0 <<< 8) (get_or len 1 0)
    let end = 14 + 40 + length
    let blank = pre_xmit netif end
    with_ether ←
        generate_ether_header blank netif.macaddr (Mac.new (field 6 6 slice)) (0x86 ∷ 0xdd ∷ [])
    with_ipv6 ←
        at_offset 14
          (generate_ipv6_header len 58 (Ipv6Address.from_array reply_source)
            (Ipv6Address.from_array src))
          with_ether
    with_icmp ←
        at_offset (14 + 40)
          (overlay (
            (0x81 ∷ get_or icmpv6_hdr 1 0 ∷ [])
            ++ le16 0
            ++ field 4 2 icmpv6_hdr
            ++ field 6 2 icmpv6_hdr))
          with_ipv6
    copied ← copy_payload (end - (14 + 40 + 8)) (14 + 40 + 8) slice with_icmp
    csum_ours ← sum_words 8 0 reply_source 0
    csum_both ← sum_words 8 0 src csum_ours
    let csum_pseudo = u32 (u32 (csum_both + length) + 58)
    csum_icmp ← sum_words (end / 2 - (14 + 40) / 2) ((14 + 40) / 2) copied csum_pseudo
    at_offset (14 + 40 + 2) (overlay (le16 (swapped (finish csum_icmp)))) copied

  pub icmpv6_one : DataFromNetif → NetState → Option NetState
  unfolding echo_reply6 advertised
  icmpv6_one frame st = do
    let bytes = slice frame.buffer
    ipv6_hdr ← view 14 40 bytes
    icmpv6_hdr ← view (14 + 40) 8 bytes
    let reply = echo_reply6 frame.netif bytes ipv6_hdr icmpv6_hdr
    let answered = reply >>= λ respslice. some (xmit frame.netif respslice st)
    let other = if get_or icmpv6_hdr 0 0 == 0x88 then advertised frame st else some st
    if get_or icmpv6_hdr 0 0 == 0x80 then answered else other

  pub icmpv6_process : Node
  unfolding icmpv6_one
  icmpv6_process [] st = some st
  icmpv6_process (frame ∷ buff) st = icmpv6_one frame st >>= λ st'. icmpv6_process buff st'
