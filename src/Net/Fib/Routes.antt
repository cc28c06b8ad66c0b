-- ===== src/Net/Fib/Routes.antt =====
-- What a registration changes for the lookups in the IPv4 tables.
use urchin.Prelude.{
  ℕ, ◌≤◌, ◌<◌, ◌≡◌, sym, ◌∙◌, ap, arith, List, [], Option, none, some, length, get_or, set,
  length-set, get_or-set_self, get_or-set_ne, get_elem?-eq-get_or, ◌≢◌, Bool-cases, inl, inr, ◌==◌,
}
use native.Mathlib.Decide.{dec_lt}
use urchin.Prelude.Map.{get, insert, get-insert_self, get-insert_ne}
use urchin.Net.Ipv4Address.{Ipv4Address, ipv4_ord, InU32}
use urchin.Net.Fib.{Tables, FibTable, register_ipv4_fib, find_ipv4_fib, ipv4_mask_to_prefixlen}
use urchin.Net.Fib.Prefix.{ipv4_mask_to_prefixlen-le}
use urchin.Net.Fib.Longest.{Fib4, network, route, IsLookup, find_ipv4_fib-IsLookup}

abbrev pub with_entry :
    ℕ → Ipv4Address → Fib4 → List (FibTable Ipv4Address) → List (FibTable Ipv4Address)
with_entry len key fib tables = set tables len (insert key fib (get_or tables len []))

abbrev pub registered : Ipv4Address → ℕ → Fib4 → Tables → Tables
registered key mask fib t = record t {
  ipv4_fib_index = with_entry (ipv4_mask_to_prefixlen mask) key fib t.ipv4_fib_index;
}

-- A registration never panics, and sets the one entry.
pub register_ipv4_fib_lem :
    (key : Ipv4Address) (mask : ℕ) (fib : Fib4) (t : Tables)
    → length t.ipv4_fib_index ≡ 33
    → register_ipv4_fib key mask fib t ≡ some (registered key mask fib t)
unfolding register_ipv4_fib
register_ipv4_fib_lem key mask fib t size = ground (
  arith,
  ipv4_mask_to_prefixlen-le mask,
  get_elem?-eq-get_or t.ipv4_fib_index (ipv4_mask_to_prefixlen mask) [],
)

pub route-with_entry_self :
    (len : ℕ) (key ip : Ipv4Address) (fib : Fib4) (tables : List (FibTable Ipv4Address))
    → len < length tables
    → network ip len ≡ key
    → route (with_entry len key fib tables) ip len ≡ some fib
route-with_entry_self len key ip fib tables lt e =
    rw (e, get_or-set_self tables len (insert key fib (get_or tables len [])) [] lt)
      (get-insert_self key fib (get_or tables len []))

pub route-with_entry_len :
    (len len' : ℕ) (key ip : Ipv4Address) (fib : Fib4) (tables : List (FibTable Ipv4Address))
    → len ≢ len'
    → route (with_entry len key fib tables) ip len' ≡ route tables ip len'
route-with_entry_len len len' key ip fib tables ne =
    ap (get (network ip len'))
      (get_or-set_ne tables len len' (insert key fib (get_or tables len [])) [] ne)

-- An entry under another key of a table changes nothing for the network.
pub route-with_entry_other :
    (len len' : ℕ) (key ip : Ipv4Address) (fib : Fib4) (tables : List (FibTable Ipv4Address))
    → len < length tables
    → (len ≡ len' → key.addr_prim ≢ (network ip len').addr_prim)
    → route (with_entry len key fib tables) ip len' ≡ route tables ip len'
route-with_entry_other len len' key ip fib tables lt ne = elim (Bool-cases (len == len')) [
  | inl same ↦
      let at : len ≡ len' = ground arith in
      rw (← at) (
        ap (get (network ip len))
          (get_or-set_self tables len (insert key fib (get_or tables len [])) [] lt)
        ∙ get-insert_ne key (network ip len) fib (get_or tables len [])
            (λ e. ne at (e ∙ ap (λ l. (network ip l).addr_prim) at)))
  | inr other ↦ route-with_entry_len len len' key ip fib tables (λ e. ground (arith, other, e))
]

-- After a route is registered under the network of its mask, which is of 1 bit or more, the lookup of an
-- address of that network finds the route, if the lookup starts at that length or above and no longer network
-- of the address has an entry.
pub find-register_ipv4_fib :
    (key ip : Ipv4Address) (mask start : ℕ) (fib : Fib4) (t : Tables)
    → length t.ipv4_fib_index ≡ 33
    → InU32 ip
    → 1 ≤ ipv4_mask_to_prefixlen mask
    → network ip (ipv4_mask_to_prefixlen mask) ≡ key
    → ipv4_mask_to_prefixlen mask ≤ ipv4_mask_to_prefixlen start
    → ((len : ℕ)
        → ipv4_mask_to_prefixlen mask < len
        → len ≤ ipv4_mask_to_prefixlen start
        → route t.ipv4_fib_index ip len ≡ none)
    → (t' : Tables) × (register_ipv4_fib key mask fib t ≡ some t')
      × (find_ipv4_fib ip start t' ≡ some (some fib))
find-register_ipv4_fib key ip mask start fib t size h lo e le above = (
  t',
  register_ipv4_fib_lem key mask fib t size,
  settle (find_ipv4_fib-IsLookup ip start t' size' h),
)
  where
    t' : Tables
    t' = registered key mask fib t

    len : ℕ
    len = ipv4_mask_to_prefixlen mask

    size' : length t'.ipv4_fib_index ≡ 33
    size' = length-set t.ipv4_fib_index len (insert key fib (get_or t.ipv4_fib_index len [])) ∙ size

    here : route t'.ipv4_fib_index ip len ≡ some fib
    here =
        route-with_entry_self len key ip fib t.ipv4_fib_index
          (omega (arith, ipv4_mask_to_prefixlen-le mask)) e

    longer_none :
        (other : ℕ)
        → len < other
        → other ≤ ipv4_mask_to_prefixlen start
        → route t'.ipv4_fib_index ip other ≡ none
    longer_none other lt le' =
        route-with_entry_len len other key ip fib t.ipv4_fib_index (omega arith)
        ∙ above other lt le'

    settle :
        (found : Option Fib4) × (find_ipv4_fib ip start t' ≡ some found)
          × IsLookup t'.ipv4_fib_index ip (ipv4_mask_to_prefixlen start) found
        → find_ipv4_fib ip start t' ≡ some (some fib)
    settle (found, returns, inr (nothing, same)) = absurd (cc (here, nothing len lo le))
    settle (found, returns, inl (fib', same, (len', lo', le', at, after))) =
        elim (dec_lt len len') [
          | yes lt ↦ absurd (cc (at, longer_none len' lt le'))
          | no nlt ↦ elim (dec_lt len' len) [
            | yes lt ↦ absurd (cc (here, after len lt le))
            | no nlt' ↦ equal len' (omega arith) at (returns ∙ ap some same)
          ]
        ]
      where
        equal :
            (other : ℕ)
            → other ≡ len
            → route t'.ipv4_fib_index ip other ≡ some fib'
            → find_ipv4_fib ip start t' ≡ some (some fib')
            → find_ipv4_fib ip start t' ≡ some (some fib)
        equal other eq at' returns' =
            returns' ∙ ap some (sym at' ∙ ap (route t'.ipv4_fib_index ip) eq ∙ here)
