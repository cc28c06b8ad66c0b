-- ===== src/Net/Arp/Learn.antt =====
-- What `ArpIn` learns from a packet, and when it says nothing.
use urchin.Prelude.{
  ℕ, ◌≤◌, ◌<◌, ◌≡◌, refl, arith, ap, sym, ◌∙◌, List, Option, none, some, Bool, true, false, ◌&&◌,
  ◌==◌, if◌then◌else◌, length, All, leb, Bool-cases, inl, inr,
}
use mathlib.Core.Path.{subst}
use urchin.Prelude.Map.{get}
use urchin.Devices.Buffer.{slice}
use urchin.Devices.Netif.{Netif}
use urchin.Net.Mac
use urchin.Net.Ipv4Address
use urchin.Net.Ipv4Address.{Ipv4Address, ipv4_ord, from_array-InU32, InU32}
use urchin.Net.Fib.{
  Tables, AdjacentInformation, adjacent_resolved, register_ipv4_adjacent, find_ipv4_fib,
  ipv4_mask_to_prefixlen,
}
use urchin.Net.Fib.Longest.{Fib4, network}
use urchin.Net.Fib.Routes.{registered, register_ipv4_fib_lem, find-register_ipv4_fib}
use urchin.Net.Frame.{field, view, le16_at}
use urchin.Net.Frame.Laws.{field-IsBytes, bind_some}
use urchin.Net.Node.{DataFromNetif, NetState}
use urchin.Net.Arp.{arp_one}
use urchin.Net.Arp.Reply.{knowing, packet_of, arp_learn_lem}

-- Whether a packet asks for an address that the tables say is the kernel's own.
abbrev pub asks_for_us : List ℕ → Tables → Bool
asks_for_us packet t = elim (get (Ipv4Address.from_array (field 24 4 packet)) t.ipv4_adjacent) [
  | none ↦ false
  | some adj ↦ adj.is_local && (le16_at 6 packet == 0x0100)
]

-- The route to the sender of a packet.
abbrev pub sender_route : Netif → List ℕ → Fib4
sender_route netif packet = record {
  nexthop_macaddress = Mac.new (field 8 6 packet);
  nexthop_address = Ipv4Address.from_array (field 14 4 packet);
  netif = netif;
  fib_type = adjacent_resolved;
}

host_network : (ip : Ipv4Address) → network ip (ipv4_mask_to_prefixlen 0xffff_ffff) ≡ ip
unfolding ipv4_mask_to_prefixlen
host_network ip = ap (λ p. record { addr_prim = p }) (omega arith)

find-knowing :
    (netif : Netif) (packet : List ℕ) (st : NetState)
    → length st.tables.ipv4_fib_index ≡ 33
    → InU32 (Ipv4Address.from_array (field 14 4 packet))
    → find_ipv4_fib
        (Ipv4Address.from_array (field 14 4 packet))
        0xffff_ffff
        (knowing netif packet st).tables
      ≡ some (some (sender_route netif packet))
unfolding find_ipv4_fib register_ipv4_adjacent ipv4_mask_to_prefixlen
find-knowing netif packet st size fits =
    let ip = Ipv4Address.from_array (field 14 4 packet) in
    let fib = sender_route netif packet in
    let (t', e, found) =
      find-register_ipv4_fib ip ip 0xffff_ffff 0xffff_ffff fib st.tables size fits (omega arith)
        (host_network ip) (omega arith) (λ len lt le. absurd (omega arith)) in
    let same : some t' ≡ some (registered ip 0xffff_ffff fib st.tables) =
      sym e ∙ register_ipv4_fib_lem ip 0xffff_ffff fib st.tables size in
    subst (λ o. elim o [ none ↦ Unit | some s ↦ find_ipv4_fib ip 0xffff_ffff s ≡ some (some fib) ])
      same found

-- A packet that does not ask for one of the kernel's addresses is not answered; its sender is
-- registered all the same, and is what the lookup of the sender's address then finds, whatever was
-- registered for that address before.
pub arp_one_quiet :
    (pre_xmit : Netif → ℕ → List ℕ) (frame : DataFromNetif) (st : NetState)
    → 42 ≤ length (slice frame.buffer)
    → All (λ b. b < 256) (slice frame.buffer)
    → length st.tables.ipv4_fib_index ≡ 33
    → asks_for_us (packet_of frame) (knowing frame.netif (packet_of frame) st).tables ≡ false
    → (st' : NetState) × (arp_one pre_xmit frame st ≡ some st')
      × (st'.sent ≡ st.sent)
      × (find_ipv4_fib
            (Ipv4Address.from_array (field 14 4 (packet_of frame)))
            0xffff_ffff
            st'.tables
          ≡ some (some (sender_route frame.netif (packet_of frame))))
unfolding arp_one
arp_one_quiet pre_xmit frame st long bytes size quiet = (
  knowing frame.netif (packet_of frame) st,
  bind_some _ seen (
      bind_some _ (arp_learn_lem frame.netif (packet_of frame) st size) (
        no_answer _
          (get (Ipv4Address.from_array (field 24 4 (packet_of frame)))
            (knowing frame.netif (packet_of frame) st).tables.ipv4_adjacent)
          quiet)),
  refl,
  find-knowing frame.netif (packet_of frame) st size (
      from_array-InU32 (field 14 4 (packet_of frame)) (
        field-IsBytes 14 4 (packet_of frame)
          (field-IsBytes 14 28 (slice frame.buffer) bytes long).bytes
          (omega (arith, (field-IsBytes 14 28 (slice frame.buffer) bytes long).size)))),
)
  where
    fits : leb 42 (length (slice frame.buffer)) ≡ true
    fits = ground arith

    seen : view 14 28 (slice frame.buffer) ≡ some (packet_of frame)
    seen = rw fits refl

    no_answer :
        (answer : AdjacentInformation → Option NetState) {st' : NetState}
        (entry : Option AdjacentInformation)
        → elim entry [
          | none ↦ false
          | some adj ↦ adj.is_local && (le16_at 6 (packet_of frame) == 0x0100)
        ]
          ≡ false
        → elim entry [
          | none ↦ some st'
          | some adj ↦
              if adj.is_local
              then (if le16_at 6 (packet_of frame) == 0x0100 then answer adj else some st')
              else some st'
        ]
          ≡ some st'
    no_answer answer none h = refl
    no_answer answer (some adj) h = elim (Bool-cases adj.is_local) [
      | inl own ↦
          let other : (le16_at 6 (packet_of frame) == 0x0100) ≡ false =
            sym (ap (λ c. c && (le16_at 6 (packet_of frame) == 0x0100)) own) ∙ h in
          rw (own, other) refl
      | inr own ↦ rw own refl
    ]
