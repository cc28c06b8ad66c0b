-- ===== src/Net/Fib/Tests.antt =====
-- Tables as the kernel fills them, runs on them, and instances of the theorems.
use urchin.Prelude.{
  ℕ, ◌≤◌, ◌≡◌, refl, arith, [], ◌∷◌, Option, none, some, true, ◌↔◌, replicate, set, zero, suc, ap,
}
use urchin.Prelude.Lists.{get_or-replicate}
use urchin.Prelude.Map.{get, insert}
use urchin.Net.Mac.{MacAddress, mac_ord}
use urchin.Net.Ipv4Address.{Ipv4Address, ipv4_ord}
use urchin.Net.Ipv6Address.{ipv6_ord}
use urchin.Devices.Netif.{Netif}
use urchin.Net.Fib.{
  FibType, remote, adjacent, local, AdjacentInformation, Tables, register_ipv4_fib, find_ipv4_fib,
  find_ipv6_fib, ipv4_mask_to_prefixlen,
}
use urchin.Net.Fib.Prefix.{prefix_mask, ipv4_mask_to_prefixlen_iff}
use urchin.Net.Fib.Longest.{
  Fib4, network, IsLongest, IsLookup, find_ipv4_fib-IsLookup, no_default_route,
}
use urchin.Net.Fib.Routes.{find-register_ipv4_fib}
use urchin.Net.Fib.Ipv6.{Fib6, IsFirstHost, find_ipv6_fib-IsFirstHost}

abbrev mac : MacAddress
mac = record { addr = 0 ∷ 0x16 ∷ 0x3e ∷ 0 ∷ 0 ∷ 1 ∷ []; addr_prim = 0x0100_003e_1600 }

abbrev nif : Netif
nif = record { id = 0; macaddr = mac }

abbrev addr4 : ℕ → Ipv4Address
addr4 p = record { addr_prim = p }

abbrev fib4 : FibType → Fib4
fib4 t = record {
  nexthop_macaddress = mac;
  nexthop_address = addr4 0xc0a8_000a;
  netif = nif;
  fib_type = t;
}

abbrev fib6 : Fib6
fib6 = record {
  nexthop_macaddress = mac;
  nexthop_address = record { addr_prim = 0xfe80 };
  netif = nif;
  fib_type = remote;
}

-- 192.168.0.10 as a host, and 192.168.0.0/24.
abbrev home : Tables
home = record {
  ipv4_fib_index =
      set (set (replicate 33 []) 24 ((addr4 0xc0a8_0000, fib4 adjacent) ∷ [])) 32
        ((addr4 0xc0a8_000a, fib4 local) ∷ []);
  ipv6_fib_index = set (replicate 129 []) 64 ((record { addr_prim = 0 }, fib6) ∷ []);
  ipv4_adjacent = [];
  ipv6_adjacent = [];
  mac_addr_table = [];
}

-- 0.0.0.0/0 and nothing else.
abbrev default_only : Tables
default_only = record home {
  ipv4_fib_index = set (replicate 33 []) 0 ((addr4 0, fib4 remote) ∷ []);
}

filled_by_registration :
    register_ipv4_fib (addr4 0xc0a8_0000) 0xffff_ff00 (fib4 adjacent) (record home {
      ipv4_fib_index = set (replicate 33 []) 32 ((addr4 0xc0a8_000a, fib4 local) ∷ []);
    })
    ≡ some home
unfolding register_ipv4_fib ipv4_mask_to_prefixlen insert
filled_by_registration = refl

ipv4_mask_to_prefixlen_iff_example :
    (ipv4_mask_to_prefixlen 0xffff_ff00 ≡ 24) ↔ ((24 ≤ 32) × (0xffff_ff00 ≡ prefix_mask 24))
ipv4_mask_to_prefixlen_iff_example = ipv4_mask_to_prefixlen_iff 0xffff_ff00 24 (omega arith)

find_ipv4_fib-IsLookup_example :
    (found : Option Fib4) × (find_ipv4_fib (addr4 0xc0a8_0063) 0xffff_ffff home ≡ some found)
    × IsLookup home.ipv4_fib_index (addr4 0xc0a8_0063) (ipv4_mask_to_prefixlen 0xffff_ffff) found
find_ipv4_fib-IsLookup_example =
    find_ipv4_fib-IsLookup (addr4 0xc0a8_0063) 0xffff_ffff home refl (omega arith)

no_default_route_example :
    IsLongest default_only.ipv4_fib_index
      (addr4 0x0808_0808)
      0
      (ipv4_mask_to_prefixlen 0xffff_ffff)
      (some (fib4 remote))
    × (find_ipv4_fib (addr4 0x0808_0808) 0xffff_ffff default_only ≡ some none)
unfolding get
no_default_route_example =
    no_default_route (addr4 0x0808_0808) 0xffff_ffff default_only (fib4 remote) refl (omega arith)
      (omega arith) refl empty_above
  where
    empty_above :
        IsLongest default_only.ipv4_fib_index
          (addr4 0x0808_0808)
          1
          (ipv4_mask_to_prefixlen 0xffff_ffff)
          none
    empty_above zero h le = absurd (omega arith)
    empty_above (suc len) h le =
        ap (get (network (addr4 0x0808_0808) (suc len))) (get_or-replicate 32 len [])

find-register_ipv4_fib_example :
    (t' : Tables) × (register_ipv4_fib (addr4 0x0a00_0000) (prefix_mask 8) (fib4 remote) home
      ≡ some t')
    × (find_ipv4_fib (addr4 0x0a01_0203) (prefix_mask 8) t' ≡ some (some (fib4 remote)))
unfolding ipv4_mask_to_prefixlen
find-register_ipv4_fib_example =
    find-register_ipv4_fib (addr4 0x0a00_0000) (addr4 0x0a01_0203) (prefix_mask 8) (prefix_mask 8)
      (fib4 remote) home refl (omega arith) (omega arith) refl (omega arith)
      (λ len lt le. absurd (omega arith))

find_ipv6_fib-IsFirstHost_example :
    (found : Option Fib6) × (find_ipv6_fib (record { addr_prim = 1 }) 128 home ≡ some found)
    × IsFirstHost home.ipv6_fib_index (record { addr_prim = 1 }) 128 found
find_ipv6_fib-IsFirstHost_example =
    find_ipv6_fib-IsFirstHost (record { addr_prim = 1 }) home refl (omega arith)

abbrev own : AdjacentInformation
own = record { mac_address = mac; netif = nif; is_local = true; expire_time = none }
