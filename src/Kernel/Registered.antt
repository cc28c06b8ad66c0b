-- ===== src/Kernel/Registered.antt =====
-- The tables after each group of registrations.
use urchin.Prelude.{
  ℕ, ◌≤◌, ◌≡◌, ◌≢◌, refl, arith, ap, ◌∙◌, List, [], none, some, true, ◌||◌, ◌==◌, length,
  length-set, set, get_or, get_elem?-eq-get_or, check_below, of_check_below,
}
use urchin.Prelude.Map.{insert}
use urchin.Devices.Netif.{Netif}
use urchin.Net.Mac.{MacAddress, mac_ord}
use urchin.Net.Ipv4Address
use urchin.Net.Ipv4Address.{Ipv4Address, ipv4_ord, InU32}
use urchin.Net.Ipv6Address.{Ipv6Address, ipv6_ord}
use urchin.Net.Fib.{
  Tables, FibTable, local, adjacent, register_ipv6_fib, register_ipv4_adjacent,
  register_ipv6_adjacent, register_macaddress, find_ipv4_fib, ipv4_mask_to_prefixlen,
}
use urchin.Net.Fib.Longest.{Fib4, route, loop_here}
use urchin.Net.Fib.Routes.{
  registered, register_ipv4_fib_lem, route-with_entry_self, route-with_entry_len,
  route-with_entry_other,
}
use urchin.Net.Frame.Laws.{bind_some}
use urchin.Kernel.{self_entry, mask_of, register_ipv4_self, register_ipv6_self}

-- The route to the kernel itself.
abbrev pub local_route : Netif → Ipv4Address → Fib4
local_route netif ip = record {
  nexthop_macaddress = netif.macaddr;
  nexthop_address = ip;
  netif = netif;
  fib_type = local;
}

-- The prefix length is found again from the mask that `start_rust` computes from it.
pub masks : check_below 33 (λ p. (p == 0) || (ipv4_mask_to_prefixlen (mask_of p) == p)) ≡ true
unfolding check_below ipv4_mask_to_prefixlen
masks = refl

pub prefixlen-mask_of : (p : ℕ) → 1 ≤ p → p ≤ 32 → ipv4_mask_to_prefixlen (mask_of p) ≡ p
prefixlen-mask_of p lo hi =
    ground (
      arith,
      of_check_below 33 (λ p. (p == 0) || (ipv4_mask_to_prefixlen (mask_of p) == p)) p masks,
    )

-- The tables after the registrations for an IPv6 address.
abbrev pub with_ipv6 : Netif → Ipv6Address → MacAddress → Tables → Tables
with_ipv6 netif a mac t =
    let t' = register_ipv6_adjacent a (self_entry mac netif) t in
    record t' {
      ipv6_fib_index = set t'.ipv6_fib_index 128 (
          insert a
            (record {
              nexthop_macaddress = mac;
              nexthop_address = a;
              netif = netif;
              fib_type = local;
            })
            (get_or t'.ipv6_fib_index 128 []));
    }

pub ipv6_self_lem :
    (netif : Netif) (a : Ipv6Address) (mac : MacAddress) (t : Tables)
    → length t.ipv6_fib_index ≡ 129
    → register_ipv6_self netif a mac t ≡ some (with_ipv6 netif a mac t)
unfolding register_ipv6_self register_ipv6_fib register_ipv6_adjacent
ipv6_self_lem netif a mac t size = ground (arith, get_elem?-eq-get_or t.ipv6_fib_index 128 [])

pub length-with_ipv6 :
    (netif : Netif) (a : Ipv6Address) (mac : MacAddress) (t : Tables)
    → length t.ipv6_fib_index ≡ 129
    → length (with_ipv6 netif a mac t).ipv6_fib_index ≡ 129
unfolding register_ipv6_adjacent
length-with_ipv6 netif a mac t size = length-set t.ipv6_fib_index 128 _ ∙ size

-- The tables after the registrations for the IPv4 address.
abbrev pub with_ipv4 : Netif → Ipv4Address → ℕ → Tables → Tables
with_ipv4 netif ip prefix t =
    registered (Ipv4Address.masked ip 24) (mask_of prefix)
      (record {
        nexthop_macaddress = netif.macaddr;
        nexthop_address = ip;
        netif = netif;
        fib_type = adjacent;
      })
      (registered ip 0xffff_ffff (local_route netif ip) (
        register_ipv4_adjacent ip (self_entry netif.macaddr netif)
          (register_macaddress netif.macaddr netif true none t)))

pub ipv4_self_lem :
    (netif : Netif) (ip : Ipv4Address) (prefix : ℕ) (t : Tables)
    → length t.ipv4_fib_index ≡ 33
    → register_ipv4_self netif ip prefix t ≡ some (with_ipv4 netif ip prefix t)
unfolding register_ipv4_self register_ipv4_adjacent register_macaddress
ipv4_self_lem netif ip prefix t size =
    bind_some _ (register_ipv4_fib_lem ip 0xffff_ffff _ _ size)
      (register_ipv4_fib_lem _ (mask_of prefix) _ _ (length-set t.ipv4_fib_index _ _ ∙ size))

-- A host route is what the lookup of its address finds.
pub find_host :
    (ip : Ipv4Address) (t : Tables) (fib : Fib4)
    → length t.ipv4_fib_index ≡ 33
    → InU32 ip
    → route t.ipv4_fib_index ip 32 ≡ some fib
    → find_ipv4_fib ip 0xffff_ffff t ≡ some (some fib)
unfolding find_ipv4_fib ipv4_mask_to_prefixlen
find_host ip t fib size h e = loop_here t.ipv4_fib_index ip size h 31 fib (omega arith) e

abbrev pub host_table : Netif → Ipv4Address → Tables → List (FibTable Ipv4Address)
host_table netif ip t = (registered ip 0xffff_ffff (local_route netif ip) t).ipv4_fib_index

pub host_table_lem :
    (netif : Netif) (ip : Ipv4Address) (t : Tables)
    → length t.ipv4_fib_index ≡ 33
    → route (host_table netif ip t) ip 32 ≡ some (local_route netif ip)
unfolding ipv4_mask_to_prefixlen
host_table_lem netif ip t size =
    route-with_entry_self 32 ip ip (local_route netif ip) t.ipv4_fib_index (omega arith)
      (ap (λ p. record { addr_prim = p }) (omega arith))

-- The host route of another address survives the registrations.
pub other_host :
    (netif : Netif) (ip other : Ipv4Address) (prefix : ℕ) (t : Tables)
    → length t.ipv4_fib_index ≡ 33
    → 1 ≤ prefix
    → prefix ≤ 31
    → InU32 other
    → ip.addr_prim ≢ other.addr_prim
    → route (with_ipv4 netif ip prefix t).ipv4_fib_index other 32 ≡ route t.ipv4_fib_index other 32
unfolding register_ipv4_adjacent register_macaddress ipv4_mask_to_prefixlen
other_host netif ip other prefix t size lo hi h ne =
    route-with_entry_len (ipv4_mask_to_prefixlen (mask_of prefix)) 32 (Ipv4Address.masked ip 24)
      other _ (host_table netif ip t)
      (λ e. omega (arith, prefixlen-mask_of prefix lo (omega arith)))
    ∙ route-with_entry_other 32 32 ip other (local_route netif ip) t.ipv4_fib_index (omega arith)
        (λ same e. ne (e ∙ omega arith))

-- The host route survives the registration of the network behind it, if that has another length.
pub own_host :
    (netif : Netif) (ip : Ipv4Address) (prefix : ℕ) (t : Tables)
    → length t.ipv4_fib_index ≡ 33
    → 1 ≤ prefix
    → prefix ≤ 31
    → route (with_ipv4 netif ip prefix t).ipv4_fib_index ip 32 ≡ some (local_route netif ip)
unfolding register_ipv4_adjacent register_macaddress
own_host netif ip prefix t size lo hi =
    route-with_entry_len (ipv4_mask_to_prefixlen (mask_of prefix)) 32 (Ipv4Address.masked ip 24) ip
      _ (host_table netif ip t) (λ e. omega (arith, prefixlen-mask_of prefix lo (omega arith)))
    ∙ host_table_lem netif ip t size
