-- ===== src/Net/Arp/Reply.antt =====
-- What `ArpIn` answers to a request.
use urchin.Prelude.{
  ℕ, ◌+◌, ◌≤◌, ◌<◌, ◌≡◌, refl, arith, ap, ap₂, ◌∙◌, List, [], ◌∷◌, ◌++◌, none, some, true, false,
  ◌==◌, length, drop, length-append, All, leb, ==_iff,
}
use urchin.Prelude.Map.{get}
use urchin.Devices.Buffer.{slice}
use urchin.Devices.Netif.{Netif}
use urchin.Net.Bytes.{IsBytes}
use urchin.Net.Mac
use urchin.Net.Mac.{MacAddress}
use urchin.Net.Ipv4Address
use urchin.Net.Ipv4Address.{Ipv4Address, ipv4_ord, get_array-from_array}
use urchin.Net.Fib.{AdjacentInformation, register_ipv4_adjacent}
use urchin.Net.Fib.{adjacent_resolved}
use urchin.Net.Fib.Routes.{registered, register_ipv4_fib_lem}
use urchin.Net.Fib.Permanent.{permanent_stays}
use urchin.Net.Frame.{field, view, overlay, at_offset, le16_at}
use urchin.Net.Frame.Laws.{field-IsBytes, overlay_at, overlay_behind_at, bind_some}
use urchin.Net.Node.{DataFromNetif, NetState, xmit}
use urchin.Net.Arp.{arp_learn, arp_respond, arp_one, arp_process}

-- What a reply on Ethernet and IPv4 has before its addresses.
abbrev pub fixed : List ℕ
fixed = 0 ∷ 1 ∷ 8 ∷ 0 ∷ 6 ∷ 4 ∷ 0 ∷ 2 ∷ []

-- The reply to a request: its fields are those of the request, turned round, with the address of the
-- interface as the answer.
abbrev pub arp_reply : List ℕ → List ℕ → List ℕ
arp_reply own packet =
    let sha = field 8 6 packet in
    let spa = field 14 4 packet in
    let tpa = field 24 4 packet in
    (sha ++ own ++ (0x08 ∷ 0x06 ∷ [])) ++ (fixed ++ own ++ tpa ++ sha ++ spa)

module _ (pre_xmit : Netif → ℕ → List ℕ) (netif : Netif) (packet : List ℕ) (st : NetState)
    (bytes : IsBytes 28 packet) (mac : length netif.macaddr.addr ≡ 6)
    (room : 42 ≤ length (pre_xmit netif 42)) where
  abbrev sha : List ℕ
  sha = field 8 6 packet

  abbrev spa : List ℕ
  spa = field 14 4 packet

  abbrev tpa : List ℕ
  tpa = field 24 4 packet

  sha-IsBytes : IsBytes 6 sha
  sha-IsBytes = field-IsBytes 8 6 packet bytes.bytes (omega (arith, bytes.size))

  spa-IsBytes : IsBytes 4 spa
  spa-IsBytes = field-IsBytes 14 4 packet bytes.bytes (omega (arith, bytes.size))

  tpa-IsBytes : IsBytes 4 tpa
  tpa-IsBytes = field-IsBytes 24 4 packet bytes.bytes (omega (arith, bytes.size))

  abbrev ether : List ℕ
  ether = sha ++ netif.macaddr.addr ++ (0x08 ∷ 0x06 ∷ [])

  abbrev body : List ℕ → List ℕ → List ℕ
  body tpa' spa' = fixed ++ netif.macaddr.addr ++ tpa' ++ sha ++ spa'

  length-ether : length ether ≡ 14
  length-ether =
      length-append (sha ++ netif.macaddr.addr) (0x08 ∷ 0x06 ∷ [])
      ∙ ap (λ n. n + 2) (length-append sha netif.macaddr.addr ∙ ap₂ ◌+◌ sha-IsBytes.size mac)

  length-body : length (body tpa spa) ≡ 28
  length-body =
      length-append (fixed ++ netif.macaddr.addr ++ tpa ++ sha) spa
      ∙ ap₂ ◌+◌
          (length-append (fixed ++ netif.macaddr.addr ++ tpa) sha
            ∙ ap₂ ◌+◌
                (length-append (fixed ++ netif.macaddr.addr) tpa
                  ∙ ap₂ ◌+◌ (length-append fixed netif.macaddr.addr ∙ ap (λ n. 8 + n) mac)
                      tpa-IsBytes.size)
                sha-IsBytes.size)
          spa-IsBytes.size

  pub respond_lem :
      arp_respond pre_xmit netif packet st
      ≡ some (xmit netif (arp_reply netif.macaddr.addr packet ++ drop 42 (pre_xmit netif 42)) st)
  unfolding arp_respond Mac.get_array Mac.new
  respond_lem = bind_some _ (overlay_at 14 ether (pre_xmit netif 42) length-ether (omega arith)) (
      bind_some _
        (ap₂ (λ a b. at_offset 14 (overlay (body a b)) (ether ++ drop 14 (pre_xmit netif 42)))
            (get_array-from_array tpa tpa-IsBytes) (get_array-from_array spa spa-IsBytes)
          ∙ overlay_behind_at 14 28 ether (body tpa spa) (pre_xmit netif 42) length-ether
              length-body room)
        refl)

-- The state after the sender of a packet is registered.
abbrev pub knowing : Netif → List ℕ → NetState → NetState
knowing netif packet st =
    let src_mac = Mac.new (field 8 6 packet) in
    let src_ip = Ipv4Address.from_array (field 14 4 packet) in
    record st {
      tables =
          register_ipv4_adjacent src_ip
            (record { mac_address = src_mac; netif = netif; is_local = false; expire_time = none })
            (registered src_ip 0xffff_ffff
              (record {
                nexthop_macaddress = src_mac;
                nexthop_address = src_ip;
                netif = netif;
                fib_type = adjacent_resolved;
              })
              st.tables);
    }

pub arp_learn_lem :
    (netif : Netif) (packet : List ℕ) (st : NetState)
    → length st.tables.ipv4_fib_index ≡ 33
    → arp_learn netif packet st.tables ≡ some (knowing netif packet st).tables
unfolding arp_learn
arp_learn_lem netif packet st size =
    bind_some _ (register_ipv4_fib_lem _ 0xffff_ffff _ st.tables size) refl

-- Learning a neighbour keeps an entry that does not expire.
own_stays :
    (netif : Netif) (packet : List ℕ) (st : NetState) (ip : Ipv4Address) (adj : AdjacentInformation)
    → get ip st.tables.ipv4_adjacent ≡ some adj
    → adj.expire_time ≡ none
    → get ip (knowing netif packet st).tables.ipv4_adjacent ≡ some adj
unfolding register_ipv4_adjacent
own_stays netif packet st ip adj e p =
    permanent_stays
      ((
        Ipv4Address.from_array (field 14 4 packet),
        record {
          mac_address = Mac.new (field 8 6 packet);
          netif = netif;
          is_local = false;
          expire_time = none;
        },
      )
        ∷ [])
      ip adj st.tables.ipv4_adjacent e p

abbrev pub packet_of : DataFromNetif → List ℕ
packet_of frame = field 14 28 (slice frame.buffer)

-- A request for an address whose entry is local and does not expire is answered on the interface of
-- that entry, with the reply that ARP asks for, and its sender is registered.
pub arp_one_request :
    (pre_xmit : Netif → ℕ → List ℕ) (frame : DataFromNetif) (st : NetState)
    (adj : AdjacentInformation)
    → 42 ≤ length (slice frame.buffer)
    → All (λ b. b < 256) (slice frame.buffer)
    → length st.tables.ipv4_fib_index ≡ 33
    → le16_at 6 (packet_of frame) ≡ 0x0100
    → get (Ipv4Address.from_array (field 24 4 (packet_of frame))) st.tables.ipv4_adjacent ≡ some adj
    → adj.is_local ≡ true
    → adj.expire_time ≡ none
    → length adj.netif.macaddr.addr ≡ 6
    → 42 ≤ length (pre_xmit adj.netif 42)
    → arp_one pre_xmit frame st
      ≡ some (
          xmit adj.netif
            (arp_reply adj.netif.macaddr.addr (packet_of frame) ++ drop 42 (pre_xmit adj.netif 42))
            (knowing frame.netif (packet_of frame) st))
unfolding arp_one
arp_one_request pre_xmit frame st adj long bytes size oper entry own lasting mac room =
    bind_some _ seen (
      bind_some _ (arp_learn_lem frame.netif (packet_of frame) st size) (
        rw
          (
            own_stays frame.netif (packet_of frame) st
                (Ipv4Address.from_array (field 24 4 (packet_of frame))) adj entry lasting,
            own,
            is_request,
          )
          (respond_lem pre_xmit adj.netif (packet_of frame)
            (knowing frame.netif (packet_of frame) st)
            (field-IsBytes 14 28 (slice frame.buffer) bytes long) mac room)))
  where
    fits : leb 42 (length (slice frame.buffer)) ≡ true
    fits = ground arith

    seen : view 14 28 (slice frame.buffer) ≡ some (packet_of frame)
    seen = rw fits refl

    is_request : (le16_at 6 (packet_of frame) == 0x0100) ≡ true
    is_request = (==_iff _ _).1 oper

pub arp_process_one :
    (pre_xmit : Netif → ℕ → List ℕ) (frame : DataFromNetif) (st st' : NetState)
    → arp_one pre_xmit frame st ≡ some st'
    → arp_process pre_xmit (frame ∷ []) st ≡ some st'
unfolding arp_process
arp_process_one pre_xmit frame st st' one = bind_some _ one refl
