-- ===== src/Net/Fib.antt =====
-- The forwarding tables of src/net/fib.rs. The five statics are the fields of `Tables`; `none` as the
-- result of an operation is a panic, from an index out of range.
pub mod Prefix
pub mod Longest
pub mod Routes
pub mod Ipv6
pub mod Permanent
mod Tests
use urchin.Prelude.{
  ℕ, zero, suc, ◌+◌, ◌%◌, ◌^◌, List, [], ◌∷◌, Option, none, some, Bool, true, false, ◌==◌,
  if◌then◌else◌, get_elem?, set, replicate, u32,
}
use urchin.Prelude.Map.{Ord, BTreeMap, get, insert}
use urchin.Net.Mac.{MacAddress, mac_ord}
use urchin.Net.Ipv4Address
use urchin.Net.Ipv4Address.{Ipv4Address, ipv4_ord}
use urchin.Net.Ipv6Address
use urchin.Net.Ipv6Address.{Ipv6Address, ipv6_ord}
use urchin.Devices.Netif.{Netif}

pub data FibType : Type 0 where
  remote adjacent adjacent_resolved local : FibType

-- `ForwardInformationBaseIpv4` and `ForwardInformationBaseIpv6` differ in the type of the address.
pub record ForwardInformationBase (A : Type 0) : Type 0 where
  pub nexthop_macaddress : MacAddress
  pub nexthop_address : A
  pub netif : Netif
  pub fib_type : FibType

pub record AdjacentInformation : Type 0 where
  pub mac_address : MacAddress
  pub netif : Netif
  pub is_local : Bool
  pub expire_time : Option ℕ

abbrev pub FibTable : Type 0 → Type 0
FibTable A = BTreeMap A (ForwardInformationBase A)

pub record Tables : Type 0 where
  pub ipv4_fib_index : List (FibTable Ipv4Address)
  pub ipv6_fib_index : List (FibTable Ipv6Address)
  pub ipv4_adjacent : BTreeMap Ipv4Address AdjacentInformation
  pub ipv6_adjacent : BTreeMap Ipv6Address AdjacentInformation
  pub mac_addr_table : BTreeMap MacAddress AdjacentInformation

-- The statics at boot.
unfoldable pub empty_tables : Tables
empty_tables = record {
  ipv4_fib_index = replicate 33 [];
  ipv6_fib_index = replicate 129 [];
  ipv4_adjacent = [];
  ipv6_adjacent = [];
  mac_addr_table = [];
}

-- The arms of the `match` on the mask, in order, up to the last one, `_ => 0`.
abbrev pub mask_arms : List (ℕ × ℕ)
mask_arms =
    (0xffff_ffff, 32)
    ∷ (0xffff_fffe, 31)
    ∷ (0xffff_fffc, 30)
    ∷ (0xffff_fff8, 29)
    ∷ (0xffff_fff0, 28)
    ∷ (0xffff_ffe0, 27)
    ∷ (0xffff_ffc0, 26)
    ∷ (0xffff_ff80, 25)
    ∷ (0xffff_ff00, 24)
    ∷ (0xffff_fe00, 23)
    ∷ (0xffff_fc00, 22)
    ∷ (0xffff_f800, 21)
    ∷ (0xffff_f000, 20)
    ∷ (0xffff_e000, 19)
    ∷ (0xffff_c000, 18)
    ∷ (0xffff_8000, 17)
    ∷ (0xffff_0000, 16)
    ∷ (0xfffe_0000, 15)
    ∷ (0xfffc_0000, 14)
    ∷ (0xfff8_0000, 13)
    ∷ (0xfff0_0000, 12)
    ∷ (0xffe0_0000, 11)
    ∷ (0xffc0_0000, 10)
    ∷ (0xff80_0000, 9)
    ∷ (0xff00_0000, 8)
    ∷ (0xfe00_0000, 7)
    ∷ (0xfc00_0000, 6)
    ∷ (0xf800_0000, 5)
    ∷ (0xf000_0000, 4)
    ∷ (0xe000_0000, 3)
    ∷ (0xc000_0000, 2)
    ∷ (0x8000_0000, 1)
    ∷ (0x0000_0000, 0)
    ∷ []

unfoldable pub match_arms : ℕ → List (ℕ × ℕ) → ℕ
match_arms mask [] = 0
match_arms mask ((m, len) ∷ arms) = if mask == m then len else match_arms mask arms

unfoldable pub ipv4_mask_to_prefixlen : ℕ → ℕ
unfolding match_arms
ipv4_mask_to_prefixlen mask = match_arms mask mask_arms

-- `TABLE[index].insert(key, value)`
unfoldable pub insert_at {ℓ} :
    {A : Type 0} {V : Type ℓ} ⦃o : Ord A⦄
    → ℕ
    → A
    → V
    → List (BTreeMap A V)
    → Option (List (BTreeMap A V))
insert_at index key value tables = elim (get_elem? tables index) [
  | none ↦ none
  | some table ↦ some (set tables index (insert key value table))
]

unfoldable pub register_ipv4_fib :
    Ipv4Address → ℕ → ForwardInformationBase Ipv4Address → Tables → Option Tables
unfolding insert_at
register_ipv4_fib ip_address mask fib t =
    elim (insert_at (ipv4_mask_to_prefixlen mask) ip_address fib t.ipv4_fib_index) [
      | none ↦ none
      | some tables ↦ some (record t { ipv4_fib_index = tables })
    ]

unfoldable pub register_ipv6_fib :
    Ipv6Address → ℕ → ForwardInformationBase Ipv6Address → Tables → Option Tables
unfolding insert_at
register_ipv6_fib ip_address prefix fib t =
    elim (insert_at prefix ip_address fib t.ipv6_fib_index) [
      | none ↦ none
      | some tables ↦ some (record t { ipv6_fib_index = tables })
    ]

-- The loop of `find_ipv4_fib` from an index down to 0.
unfoldable pub find_ipv4_loop :
    ℕ
    → Ipv4Address
    → List (FibTable Ipv4Address)
    → Option (Option (ForwardInformationBase Ipv4Address))
find_ipv4_loop zero ip tables = elim (get_elem? tables 0) [
  | none ↦ none
  | some table ↦ some (get (Ipv4Address.masked ip 0) table)
]
find_ipv4_loop (suc i) ip tables = elim (get_elem? tables (suc i)) [
  | none ↦ none
  | some table ↦ elim (get (Ipv4Address.masked ip (suc i)) table) [
    | some fib ↦ some (some fib)
    | none ↦ find_ipv4_loop i ip tables
  ]
]

unfoldable pub find_ipv4_fib :
    Ipv4Address → ℕ → Tables → Option (Option (ForwardInformationBase Ipv4Address))
unfolding find_ipv4_loop
find_ipv4_fib ip_address mask t =
    find_ipv4_loop (ipv4_mask_to_prefixlen mask) ip_address t.ipv4_fib_index

-- The loop of `find_ipv6_fib`: the key is masked with `prefix` in every round.
unfoldable pub find_ipv6_loop :
    ℕ
    → ℕ
    → Ipv6Address
    → List (FibTable Ipv6Address)
    → Option (Option (ForwardInformationBase Ipv6Address))
find_ipv6_loop zero prefix ip tables = elim (get_elem? tables 0) [
  | none ↦ none
  | some table ↦ some (get (Ipv6Address.masked ip prefix) table)
]
find_ipv6_loop (suc i) prefix ip tables = elim (get_elem? tables (suc i)) [
  | none ↦ none
  | some table ↦ elim (get (Ipv6Address.masked ip prefix) table) [
    | some fib ↦ some (some fib)
    | none ↦ find_ipv6_loop i prefix ip tables
  ]
]

unfoldable pub find_ipv6_fib :
    Ipv6Address → ℕ → Tables → Option (Option (ForwardInformationBase Ipv6Address))
unfolding find_ipv6_loop
find_ipv6_fib ip_address prefix t = find_ipv6_loop prefix prefix ip_address t.ipv6_fib_index

-- What the three functions `register_ipv4_adjacent`, `register_ipv6_adjacent` and
-- `register_macaddress` do to their table: an entry with no expiry time stays as it is.
unfoldable pub register_entry :
    {K : Type 0} ⦃o : Ord K⦄
    → K
    → AdjacentInformation
    → BTreeMap K AdjacentInformation
    → BTreeMap K AdjacentInformation
register_entry key info table = elim (get key table) [
  | some adj ↦ elim adj.expire_time [
    | some expire_time_of_existing ↦ insert key info table
    | none ↦ table
  ]
  | none ↦ insert key info table
]

unfoldable pub register_ipv4_adjacent : Ipv4Address → AdjacentInformation → Tables → Tables
register_ipv4_adjacent ip info t = record t {
  ipv4_adjacent = register_entry ip info t.ipv4_adjacent;
}

unfoldable pub register_ipv6_adjacent : Ipv6Address → AdjacentInformation → Tables → Tables
register_ipv6_adjacent ip info t = record t {
  ipv6_adjacent = register_entry ip info t.ipv6_adjacent;
}

-- The entry repeats the address that is its key.
unfoldable pub register_macaddress : MacAddress → Netif → Bool → Option ℕ → Tables → Tables
register_macaddress mac netif is_local expire_time t = record t {
  mac_addr_table =
      register_entry mac
        (record {
          mac_address = mac;
          netif = netif;
          is_local = is_local;
          expire_time = expire_time;
        })
        t.mac_addr_table;
}
