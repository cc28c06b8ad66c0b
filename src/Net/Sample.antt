-- ===== src/Net/Sample.antt =====
-- Frames, tables and an interface for the tests of the nodes.
use urchin.Prelude.{
  ℕ, List, [], ◌∷◌, ◌++◌, none, true, replicate, set, length, ◌≡◌, arith, Bool, ◌&&◌, ltb, All, ◌<◌,
}
use urchin.Devices.Netif.{Netif}
use urchin.Net.Mac.{MacAddress}
use urchin.Net.Ipv4Address.{Ipv4Address}
use urchin.Net.Fib.{Tables, AdjacentInformation, local}
use urchin.Net.Node.{DataFromNetif, NetState}

abbrev pub own_bytes : List ℕ
own_bytes = 0 ∷ 0x16 ∷ 0x3e ∷ 0 ∷ 0 ∷ 1 ∷ []

abbrev pub peer_bytes : List ℕ
peer_bytes = 0 ∷ 0x16 ∷ 0x3e ∷ 0 ∷ 0 ∷ 2 ∷ []

abbrev pub own_mac : MacAddress
own_mac = record { addr = own_bytes; addr_prim = 0x0100_003e_1600 }

abbrev pub netif : Netif
netif = record { id = 0; macaddr = own_mac }

abbrev pub frame_of : List ℕ → DataFromNetif
frame_of bytes = record {
  netif = netif;
  buffer = record {
    buffer_ptr = 4096;
    size = length bytes;
    position = 0;
    layout = record { size = length bytes; align = 1 };
    memory = bytes;
  };
}

-- 192.168.0.10, which is local, and its own MAC address.
abbrev pub own_ip : Ipv4Address
own_ip = record { addr_prim = 0xc0a8_000a }

abbrev pub own_entry : AdjacentInformation
own_entry = record { mac_address = own_mac; netif = netif; is_local = true; expire_time = none }

abbrev pub tables : Tables
tables = record {
  ipv4_fib_index = set (replicate 33 []) 32 (
      (
        own_ip,
        record {
          nexthop_macaddress = own_mac;
          nexthop_address = own_ip;
          netif = netif;
          fib_type = local;
        },
      )
      ∷ []);
  ipv6_fib_index = replicate 129 [];
  ipv4_adjacent = (own_ip, own_entry) ∷ [];
  ipv6_adjacent = [];
  mac_addr_table = (own_mac, own_entry) ∷ [];
}

abbrev pub start : NetState
start = record { tables = tables; sent = [] }

-- A broadcast ARP request of the peer, 192.168.0.99, for 192.168.0.10.
abbrev pub request_bytes : List ℕ
request_bytes =
    replicate 6 0xff
    ++ peer_bytes
    ++ (0x08 ∷ 0x06 ∷ 0 ∷ 1 ∷ 8 ∷ 0 ∷ 6 ∷ 4 ∷ 0 ∷ 1 ∷ [])
    ++ peer_bytes
    ++ (192 ∷ 168 ∷ 0 ∷ 99 ∷ 0 ∷ 0 ∷ 0 ∷ 0 ∷ 0 ∷ 0 ∷ 192 ∷ 168 ∷ 0 ∷ 10 ∷ [])

-- An echo request of the peer, with a payload of two bytes.
abbrev pub echo_bytes : List ℕ
echo_bytes =
    own_bytes
    ++ peer_bytes
    ++ (0x08 ∷ 0x00 ∷ 0x45 ∷ 0 ∷ 0 ∷ 30 ∷ 0 ∷ 0 ∷ 0 ∷ 0 ∷ 64 ∷ 1 ∷ 0 ∷ 0 ∷ [])
    ++ (192 ∷ 168 ∷ 0 ∷ 99 ∷ 192 ∷ 168 ∷ 0 ∷ 10 ∷ [])
    ++ (8 ∷ 0 ∷ 0 ∷ 0 ∷ 1 ∷ 2 ∷ 0 ∷ 7 ∷ 0xab ∷ 0xcd ∷ [])

-- The same request, as `tpa` of an address that nobody has here.
abbrev pub other_request_bytes : List ℕ
other_request_bytes = set request_bytes 41 11

-- A buffer of the driver.
abbrev pub blank : Netif → ℕ → List ℕ
blank n size = replicate size 0

-- An echo request of ICMPv6, of ten bytes.
abbrev pub peer_ip6 : List ℕ
peer_ip6 = 0xfe ∷ 0x80 ∷ 0 ∷ 0 ∷ 0 ∷ 0 ∷ 0 ∷ 0 ∷ 0x02 ∷ 0x16 ∷ 0x3e ∷ 0xff ∷ 0xfe ∷ 0 ∷ 0 ∷ 2 ∷ []

abbrev pub echo6_bytes : List ℕ
echo6_bytes =
    own_bytes
    ++ peer_bytes
    ++ (0x86 ∷ 0xdd ∷ 0x60 ∷ 0 ∷ 0 ∷ 0 ∷ 0 ∷ 10 ∷ 58 ∷ 64 ∷ [])
    ++ peer_ip6
    ++ set peer_ip6 15 1
    ++ (0x80 ∷ 0 ∷ 0 ∷ 0 ∷ 1 ∷ 2 ∷ 0 ∷ 7 ∷ 0xab ∷ 0xcd ∷ [])

unfoldable pub all_below : List ℕ → Bool
all_below [] = true
all_below (x ∷ xs) = ltb x 256 && all_below xs

pub all_below-All : (xs : List ℕ) → all_below xs ≡ true → All (λ b. b < 256) xs
unfolding all_below
all_below-All [] h = tt
all_below-All (x ∷ xs) h = (ground arith, all_below-All xs (ground arith))
