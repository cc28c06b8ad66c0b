-- ===== src/Net/Icmpv6/Advertise.antt =====
-- What a neighbour advertisement does.
use urchin.Prelude.{
  ℕ, ◌≡◌, refl, arith, none, true, false, ◌==◌, length, get_or, Option-cases, inl, inr, leb,
  Bool-cases, List,
}
use urchin.Devices.Buffer.{slice}
use urchin.Devices.Netif.{Netif}
use urchin.Net.Mac
use urchin.Net.Ipv6Address
use urchin.Net.Fib.{adjacent_resolved}
use urchin.Net.Fib.Ipv6.{Fib6, register_ipv6_fib_iff}
use urchin.Net.Frame.{field, view}
use urchin.Net.Node.{DataFromNetif, NetState}
use urchin.Net.Icmpv6.{advertised, icmpv6_one}

advertised_lem :
    (frame : DataFromNetif) (st : NetState)
    → length st.tables.ipv6_fib_index ≡ 129
    → advertised frame st ≡ none
unfolding advertised
advertised_lem frame st size = elim (Option-cases (view 66 24 (slice frame.buffer))) [
  | inl e ↦ rw e refl
  | inr (target, e) ↦
      let mac = Mac.new (field 18 6 target) in
      let ip = Ipv6Address.from_array (field 0 16 target) in
      let fib : Fib6 = record {
        nexthop_macaddress = mac;
        nexthop_address = ip;
        netif = frame.netif;
        fib_type = adjacent_resolved;
      } in
      let refused = (register_ipv6_fib_iff ip 0xffff_ffff fib st.tables size).1 (omega arith) in
      rw (e, refused) refl
]

-- On the 129 tables the handler of a neighbour advertisement never returns: whatever the frame holds,
-- it panics.
pub icmpv6_one-advertisement :
    (pre_xmit : Netif → ℕ → List ℕ) (frame : DataFromNetif) (st : NetState)
    → length st.tables.ipv6_fib_index ≡ 129
    → get_or (field 54 8 (slice frame.buffer)) 0 0 ≡ 0x88
    → icmpv6_one pre_xmit frame st ≡ none
unfolding icmpv6_one
icmpv6_one-advertisement pre_xmit frame st size kind =
    elim (Bool-cases (leb 54 (length (slice frame.buffer)))) [
      | inr e ↦ rw e refl
      | inl e ↦ elim (Bool-cases (leb 62 (length (slice frame.buffer)))) [
        | inr e' ↦ rw (e, e') refl
        | inl e' ↦
            let not_echo : (get_or (field 54 8 (slice frame.buffer)) 0 0 == 0x80) ≡ false =
              ground arith in
            let is_advertisement : (get_or (field 54 8 (slice frame.buffer)) 0 0 == 0x88) ≡ true =
              ground arith in
            rw (e, e', not_echo, is_advertisement) (advertised_lem frame st size)
      ]
    ]
