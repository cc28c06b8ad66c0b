-- ===== src/Kernel.antt =====
-- The closure `setup_virtio_net` of `start_rust` in src/lib.rs: what is registered for an interface and
-- its address.
pub mod Registered
pub mod Routes
pub mod Answers
pub mod Devices
pub mod Nodes
pub mod Receives
pub mod Pings
pub mod TestTask
pub mod MainLoop
pub mod Network
pub mod Start
pub mod Tests
use urchin.Prelude.{
  ℕ, List, [], ◌∷◌, ◌++◌, Option, none, some, true, get_or, sub_u32, shl_u32, ◌>>=◌,
}
use urchin.Devices.Netif.{Netif}
use urchin.Net.Mac
use urchin.Net.Mac.{MacAddress}
use urchin.Net.Ipv4Address
use urchin.Net.Ipv4Address.{Ipv4Address}
use urchin.Net.Ipv6Address
use urchin.Net.Ipv6Address.{Ipv6Address}
use urchin.Net.Fib.{
  Tables, AdjacentInformation, local, adjacent, register_ipv4_fib, register_ipv6_fib,
  register_ipv4_adjacent, register_ipv6_adjacent, register_macaddress,
}

abbrev pub self_entry : MacAddress → Netif → AdjacentInformation
self_entry mac netif = record {
  mac_address = mac;
  netif = netif;
  is_local = true;
  expire_time = none;
}

-- The addresses that are made of the bytes of the MAC address.
abbrev pub lla_eui64 : List ℕ → List ℕ
lla_eui64 m =
    0xfe
    ∷ 0x80
    ∷ 0
    ∷ 0
    ∷ 0
    ∷ 0
    ∷ 0
    ∷ 0
    ∷ get_or m 0 0
    ∷ get_or m 1 0
    ∷ get_or m 2 0
    ∷ 0xff
    ∷ 0xfe
    ∷ get_or m 3 0
    ∷ get_or m 4 0
    ∷ get_or m 5 0
    ∷ []

abbrev pub snmcast : List ℕ → List ℕ
snmcast m =
    0xff
    ∷ 0x02
    ∷ 0
    ∷ 0
    ∷ 0
    ∷ 0
    ∷ 0
    ∷ 0
    ∷ 0
    ∷ 0
    ∷ 0
    ∷ 1
    ∷ 0xff
    ∷ get_or m 3 0
    ∷ get_or m 4 0
    ∷ get_or m 5 0
    ∷ []

abbrev pub snmcast_macaddr : List ℕ → List ℕ
snmcast_macaddr m = 0x33 ∷ 0x33 ∷ 0xff ∷ get_or m 3 0 ∷ get_or m 4 0 ∷ get_or m 5 0 ∷ []

abbrev pub allnodemcast : List ℕ
allnodemcast = 0xff ∷ 0x02 ∷ 0 ∷ 0 ∷ 0 ∷ 0 ∷ 0 ∷ 0 ∷ 0 ∷ 0 ∷ 0 ∷ 0 ∷ 0 ∷ 0 ∷ 0 ∷ 1 ∷ []

abbrev pub allnodemcast_macaddr : List ℕ
allnodemcast_macaddr = 0x33 ∷ 0x33 ∷ 0 ∷ 0 ∷ 0 ∷ 1 ∷ []

abbrev pub mask_of : ℕ → ℕ
mask_of prefix = shl_u32 0xffff_ffff (sub_u32 32 prefix)

-- The registrations for the IPv4 address.
pub register_ipv4_self : Netif → Ipv4Address → ℕ → Tables → Option Tables
register_ipv4_self netif ipv4addr prefix t = do
  let mac = netif.macaddr
  let t₁ = register_macaddress mac netif true none t
  let t₂ = register_ipv4_adjacent ipv4addr (self_entry mac netif) t₁
  t₃ ←
      register_ipv4_fib ipv4addr 0xffff_ffff
        (record {
          nexthop_macaddress = mac;
          nexthop_address = ipv4addr;
          netif = netif;
          fib_type = local;
        })
        t₂
  register_ipv4_fib (Ipv4Address.masked ipv4addr 24) (mask_of prefix)
      (record {
        nexthop_macaddress = mac;
        nexthop_address = ipv4addr;
        netif = netif;
        fib_type = adjacent;
      })
      t₃

-- The two registrations that each IPv6 address has.
pub register_ipv6_self : Netif → Ipv6Address → MacAddress → Tables → Option Tables
register_ipv6_self netif ipv6addr mac t =
    register_ipv6_fib ipv6addr 128
      (record {
        nexthop_macaddress = mac;
        nexthop_address = ipv6addr;
        netif = netif;
        fib_type = local;
      })
      (register_ipv6_adjacent ipv6addr (self_entry mac netif) t)

pub register_self : Netif → Ipv4Address → ℕ → Tables → Option Tables
unfolding register_ipv4_self register_ipv6_self
register_self netif ipv4addr prefix t = do
  let macaddr_array = Mac.get_array netif.macaddr
  t₁ ← register_ipv4_self netif ipv4addr prefix t
  t₂ ← register_ipv6_self netif (Ipv6Address.from_array (lla_eui64 macaddr_array)) netif.macaddr t₁
  let snmac = Mac.new (snmcast_macaddr macaddr_array)
  t₃ ←
      register_ipv6_self netif (Ipv6Address.from_array (snmcast macaddr_array)) snmac
        (register_macaddress snmac netif true none t₂)
  let allmac = Mac.new allnodemcast_macaddr
  register_ipv6_self netif (Ipv6Address.from_array allnodemcast) allmac
      (register_macaddress allmac netif true none t₃)
