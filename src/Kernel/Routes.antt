-- ===== src/Kernel/Routes.antt =====
-- What the tables hold once an interface and its address are registered.
use urchin.Prelude.{ℕ, ◌≤◌, ◌≡◌, ◌≢◌, arith, ◌∙◌, List, none, some, true, length, length-set}
use urchin.Prelude.Map.{get, Ord, BTreeMap}
use urchin.Devices.Netif.{Netif}
use urchin.Net.Mac
use urchin.Net.Mac.{MacAddress, mac_ord}
use urchin.Net.Ipv4Address.{Ipv4Address, ipv4_ord, InU32}
use urchin.Net.Ipv6Address
use urchin.Net.Ipv6Address.{Ipv6Address, ipv6_ord}
use urchin.Net.Fib.{
  AdjacentInformation, Tables, register_ipv4_adjacent, register_ipv6_adjacent, register_macaddress,
  register_entry, find_ipv4_fib,
}
use urchin.Net.Fib.Longest.{route}
use urchin.Net.Fib.Permanent.{get-register_entry}
use urchin.Net.Ethernet.Own.{MacTable, IsPermanent, is_own}
use urchin.Net.Frame.Laws.{bind_some}
use urchin.Kernel.{
  self_entry, lla_eui64, snmcast, snmcast_macaddr, allnodemcast, allnodemcast_macaddr,
  register_self,
}
use urchin.Kernel.Registered.{
  local_route, with_ipv6, ipv6_self_lem, length-with_ipv6, with_ipv4, ipv4_self_lem, host_table,
  own_host, other_host, find_host,
}

-- The tables know an interface and its address as the kernel's own.
pub record IsReady (netif : Netif) (ip : Ipv4Address) (t : Tables) : Type 0 where
  pub tables4 : length t.ipv4_fib_index ≡ 33
  pub tables6 : length t.ipv6_fib_index ≡ 129
  pub permanent : IsPermanent t.mac_addr_table
  pub own_mac : is_own t.mac_addr_table netif.macaddr ≡ true
  pub own_ip : get ip t.ipv4_adjacent ≡ some (self_entry netif.macaddr netif)
  pub fits : InU32 ip
  pub host : route t.ipv4_fib_index ip 32 ≡ some (local_route netif ip)

-- The lookup of the address finds its local route.
pub IsReady-to_us :
    (netif : Netif) (ip : Ipv4Address) (t : Tables)
    → IsReady netif ip t
    → find_ipv4_fib ip 0xffff_ffff t ≡ some (some (local_route netif ip))
IsReady-to_us netif ip t ready =
    find_host ip t (local_route netif ip) ready.tables4 ready.fits ready.host

-- A MAC address that a registration of an interface does not touch.
abbrev pub IsOther : Netif → MacAddress → Type 0
IsOther netif j =
    (netif.macaddr.addr_prim ≢ j.addr_prim)
    × ((Mac.new (snmcast_macaddr (Mac.get_array netif.macaddr))).addr_prim ≢ j.addr_prim)
    × ((Mac.new allnodemcast_macaddr).addr_prim ≢ j.addr_prim)

-- The tables are ready for the interface, and for all that they were ready for; other MAC addresses and
-- other addresses have the entries that they had.
pub record IsAdded (netif : Netif) (ip : Ipv4Address) (t t' : Tables) : Type 0 where
  pub ready : IsReady netif ip t'
  pub others :
      (other : Netif) (ip' : Ipv4Address)
      → ip.addr_prim ≢ ip'.addr_prim
      → IsReady other ip' t
      → IsReady other ip' t'
  pub macs : (j : MacAddress) → IsOther netif j → get j t'.mac_addr_table ≡ get j t.mac_addr_table
  pub ips :
      (a : Ipv4Address)
      → ip.addr_prim ≢ a.addr_prim
      → get a t'.ipv4_adjacent ≡ get a t.ipv4_adjacent

other_entry :
    {K : Type 0} ⦃o : Ord K⦄ (k j : K) (info : AdjacentInformation)
    (table : BTreeMap K AdjacentInformation)
    → o.prim k ≢ o.prim j
    → get j (register_entry k info table) ≡ get j table
other_entry k j info table ne = ground (arith, get-register_entry k j info table, ne)

self_IsPermanent :
    (mac : MacAddress) (netif : Netif) (table : MacTable)
    → IsPermanent table
    → IsPermanent (register_entry mac (self_entry mac netif) table)
self_IsPermanent mac netif table h j adj e =
    ground (arith, get-register_entry mac j (self_entry mac netif) table, h j adj)

-- A registration of a local address takes no local address away.
self_keeps_own :
    (mac : MacAddress) (netif : Netif) (table : MacTable) (j : MacAddress)
    → is_own table j ≡ true
    → is_own (register_entry mac (self_entry mac netif) table) j ≡ true
self_keeps_own mac netif table j h =
    ground (arith, get-register_entry mac j (self_entry mac netif) table)

self_own :
    (mac : MacAddress) (netif : Netif) (table : MacTable)
    → get mac table ≡ none
    → is_own (register_entry mac (self_entry mac netif) table) mac ≡ true
self_own mac netif table h = ground (arith, get-register_entry mac mac (self_entry mac netif) table)

module _ (netif : Netif) (ip : Ipv4Address) (prefix : ℕ) (t : Tables)
    (size4 : length t.ipv4_fib_index ≡ 33) (size6 : length t.ipv6_fib_index ≡ 129) where
  abbrev mac_bytes : List ℕ
  mac_bytes = Mac.get_array netif.macaddr

  abbrev t₁ : Tables
  t₁ = with_ipv4 netif ip prefix t

  abbrev t₂ : Tables
  t₂ = with_ipv6 netif (Ipv6Address.from_array (lla_eui64 mac_bytes)) netif.macaddr t₁

  abbrev snmac : MacAddress
  snmac = Mac.new (snmcast_macaddr mac_bytes)

  abbrev t₃ : Tables
  t₃ =
      with_ipv6 netif (Ipv6Address.from_array (snmcast mac_bytes)) snmac
        (register_macaddress snmac netif true none t₂)

  abbrev allmac : MacAddress
  allmac = Mac.new allnodemcast_macaddr

  abbrev t₄ : Tables
  t₄ =
      with_ipv6 netif (Ipv6Address.from_array allnodemcast) allmac
        (register_macaddress allmac netif true none t₃)

  size₂ : length t₂.ipv6_fib_index ≡ 129
  unfolding register_ipv4_adjacent register_macaddress
  size₂ = length-with_ipv6 netif _ netif.macaddr t₁ size6

  size₃ : length t₃.ipv6_fib_index ≡ 129
  unfolding register_macaddress
  size₃ = length-with_ipv6 netif _ snmac (register_macaddress snmac netif true none t₂) size₂

  self_returns : register_self netif ip prefix t ≡ some t₄
  unfolding register_self register_ipv4_adjacent register_macaddress
  self_returns = bind_some _ (ipv4_self_lem netif ip prefix t size4) (
      bind_some _ (ipv6_self_lem netif _ netif.macaddr t₁ size6) (
        bind_some _
          (ipv6_self_lem netif _ snmac (register_macaddress snmac netif true none t₂) size₂)
          (ipv6_self_lem netif _ allmac (register_macaddress allmac netif true none t₃) size₃)))

  own_ip_lem :
      get ip t.ipv4_adjacent ≡ none
      → get ip (register_entry ip (self_entry netif.macaddr netif) t.ipv4_adjacent)
        ≡ some (self_entry netif.macaddr netif)
  own_ip_lem missing =
      ground (arith, get-register_entry ip ip (self_entry netif.macaddr netif) t.ipv4_adjacent)

  tables4_lem : length t₄.ipv4_fib_index ≡ 33
  unfolding register_ipv4_adjacent register_macaddress register_ipv6_adjacent
  tables4_lem = length-set (host_table netif ip t) _ _ ∙ length-set t.ipv4_fib_index _ _ ∙ size4

  tables6_lem : length t₄.ipv6_fib_index ≡ 129
  unfolding register_ipv4_adjacent register_macaddress register_ipv6_adjacent
  tables6_lem =
      length-with_ipv6 netif _ allmac (register_macaddress allmac netif true none t₃) size₃

  permanent_lem : IsPermanent t.mac_addr_table → IsPermanent t₄.mac_addr_table
  unfolding register_ipv4_adjacent register_macaddress register_ipv6_adjacent
  permanent_lem permanent = self_IsPermanent allmac netif _ (
      self_IsPermanent snmac netif _
        (self_IsPermanent netif.macaddr netif t.mac_addr_table permanent))

  others_lem :
      1 ≤ prefix
      → prefix ≤ 31
      → (other : Netif) (ip' : Ipv4Address) → ip.addr_prim ≢ ip'.addr_prim
      → IsReady other ip' t
      → IsReady other ip' t₄
  unfolding register_ipv4_adjacent register_macaddress register_ipv6_adjacent
  others_lem lo hi other ip' ne h = record {
    tables4 = tables4_lem;
    tables6 = tables6_lem;
    permanent = permanent_lem h.permanent;
    own_mac = self_keeps_own allmac netif _ other.macaddr (
        self_keeps_own snmac netif _ other.macaddr
          (self_keeps_own netif.macaddr netif t.mac_addr_table other.macaddr h.own_mac));
    own_ip = other_entry ip ip' (self_entry netif.macaddr netif) t.ipv4_adjacent ne ∙ h.own_ip;
    fits = h.fits;
    host = other_host netif ip ip' prefix t size4 lo hi h.fits ne ∙ h.host;
  }

  -- Registering an interface whose addresses are new never panics, for a prefix of 1 to 31 bits, and
  -- adds it to the tables: its MAC address and its IP address are the kernel's own, for good, its IP
  -- address has the local route, and the interfaces that were registered before stay.
  pub register_self-IsAdded :
      InU32 ip
      → 1 ≤ prefix
      → prefix ≤ 31
      → IsPermanent t.mac_addr_table
      → get netif.macaddr t.mac_addr_table ≡ none
      → get ip t.ipv4_adjacent ≡ none
      → (t' : Tables) × (register_self netif ip prefix t ≡ some t') × IsAdded netif ip t t'
  unfolding register_ipv4_adjacent register_macaddress register_ipv6_adjacent
  register_self-IsAdded fits lo hi permanent new_mac new_ip = (
    t₄,
    self_returns,
    record {
      ready = record {
        tables4 = tables4_lem;
        tables6 = tables6_lem;
        permanent = permanent_lem permanent;
        own_mac = self_keeps_own allmac netif _ netif.macaddr (
            self_keeps_own snmac netif _ netif.macaddr
              (self_own netif.macaddr netif t.mac_addr_table new_mac));
        own_ip = own_ip_lem new_ip;
        fits = fits;
        host = own_host netif ip prefix t size4 lo hi;
      };
      others = others_lem lo hi;
      macs = λ j ne.
          other_entry allmac j _ _ ne.2
          ∙ other_entry snmac j _ _ ne.1
          ∙ other_entry netif.macaddr j _ t.mac_addr_table ne.0;
      ips = λ a ne. other_entry ip a (self_entry netif.macaddr netif) t.ipv4_adjacent ne;
    },
  )
