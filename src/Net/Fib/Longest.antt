-- ===== src/Net/Fib/Longest.antt =====
-- `find_ipv4_fib` against longest-prefix matching.
use urchin.Prelude.{
  ℕ, zero, suc, ◌-◌, ◌*◌, ◌/◌, ◌^◌, ◌≤◌, ◌<◌, ◌≡◌, refl, ap, arith, List, [], ◌∷◌, Option, none,
  some, length, get_elem?, get_or, get_elem?-eq-get_or, ◌≢◌, sym, ◌∙◌, inl, inr, ◌⊎◌,
}
use urchin.Prelude.Map.{get}
use urchin.Net.Ipv4Address.{Ipv4Address, ipv4_ord, InU32, masked, masked_lem, masked-zero}
use urchin.Net.Fib.{
  Tables, FibTable, ForwardInformationBase, find_ipv4_loop, find_ipv4_fib, ipv4_mask_to_prefixlen,
}
use urchin.Net.Fib.Prefix.{ipv4_mask_to_prefixlen-le}

abbrev pub Fib4 : Type 0
Fib4 = ForwardInformationBase Ipv4Address

-- The network of `len` bits that an address lies in: of 0 bits, 0.0.0.0.
abbrev pub network : Ipv4Address → ℕ → Ipv4Address
network ip len = record { addr_prim = ip.addr_prim / 2 ^ (32 - len) * 2 ^ (32 - len) }

-- What the table for networks of `len` bits has for the network of `ip`.
abbrev pub route : List (FibTable Ipv4Address) → Ipv4Address → ℕ → Option Fib4
route tables ip len = get (network ip len) (get_or tables len [])

-- `result` is the entry for the longest of the networks of `low` to `start` bits that has one.
abbrev pub IsLongest : List (FibTable Ipv4Address) → Ipv4Address → ℕ → ℕ → Option Fib4 → Type 0
IsLongest tables ip low start none =
    (len : ℕ) → low ≤ len → len ≤ start → route tables ip len ≡ none
IsLongest tables ip low start (some fib) =
    (len : ℕ) × (low ≤ len)
    × (len ≤ start)
    × (route tables ip len ≡ some fib)
    × ((longer : ℕ) → len < longer → longer ≤ start → route tables ip longer ≡ none)

-- The longest match from 1 bit on, and without one what the table of 0 bits has under the address itself,
-- whatever its network there has.
abbrev pub IsLookup : List (FibTable Ipv4Address) → Ipv4Address → ℕ → Option Fib4 → Type 0
IsLookup tables ip start found =
    ((fib : Fib4) × (found ≡ some fib) × IsLongest tables ip 1 start (some fib))
    ⊎ (IsLongest tables ip 1 start none × (found ≡ get ip (get_or tables 0 [])))

-- The key that the lookup takes to each table.
abbrev lookup_key : Ipv4Address → ℕ → Ipv4Address
lookup_key ip zero = ip
lookup_key ip (suc len) = network ip (suc len)

abbrev entry : List (FibTable Ipv4Address) → Ipv4Address → ℕ → Option Fib4
entry tables ip len = get (lookup_key ip len) (get_or tables len [])

-- The first entry from `start` down.
abbrev IsFirst : List (FibTable Ipv4Address) → Ipv4Address → ℕ → Option Fib4 → Type 0
IsFirst tables ip start none = (len : ℕ) → len ≤ start → entry tables ip len ≡ none
IsFirst tables ip start (some fib) =
    (len : ℕ) × (len ≤ start)
    × (entry tables ip len ≡ some fib)
    × ((longer : ℕ) → len < longer → longer ≤ start → entry tables ip longer ≡ none)

le_cases : (n i : ℕ) → n ≤ suc i → (n ≤ i) ⊎ (n ≡ suc i)
le_cases n i h = omega arith

only_zero : (n : ℕ) → n ≤ 0 → n ≡ 0
only_zero n h = omega arith

masked-eq-lookup_key :
    (ip : Ipv4Address) (len : ℕ) → InU32 ip → len ≤ 32 → masked ip len ≡ lookup_key ip len
masked-eq-lookup_key ip zero h le = masked-zero ip h
masked-eq-lookup_key ip (suc len) h le =
    ap (λ p. record { addr_prim = p }) (masked_lem ip (suc len) h (omega arith) le)

module _ (tables : List (FibTable Ipv4Address)) (ip : Ipv4Address) (size : length tables ≡ 33)
    (h : InU32 ip) where
  found_at :
      (len : ℕ)
      → len ≤ 32
      → (get_elem? tables len ≡ some (get_or tables len []))
        × (get (masked ip len) (get_or tables len []) ≡ entry tables ip len)
  found_at len le = (
    get_elem?-eq-get_or tables len [] (omega arith),
    ap (λ k. get k (get_or tables len [])) (masked-eq-lookup_key ip len h le),
  )

  loop_zero : find_ipv4_loop 0 ip tables ≡ some (entry tables ip 0)
  unfolding find_ipv4_loop
  loop_zero = ground (arith, found_at 0)

  pub loop_here :
      (i : ℕ) (fib : Fib4)
      → suc i ≤ 32
      → entry tables ip (suc i) ≡ some fib
      → find_ipv4_loop (suc i) ip tables ≡ some (some fib)
  unfolding find_ipv4_loop
  loop_here i fib le e = ground (arith, found_at (suc i) le)

  loop_below :
      (i : ℕ)
      → suc i ≤ 32
      → entry tables ip (suc i) ≡ none
      → find_ipv4_loop (suc i) ip tables ≡ find_ipv4_loop i ip tables
  unfolding find_ipv4_loop
  loop_below i le e = ground (arith, found_at (suc i) le)

  widen :
      (i : ℕ) (found : Option Fib4)
      → entry tables ip (suc i) ≡ none
      → IsFirst tables ip i found
      → IsFirst tables ip (suc i) found
  widen i none e first = λ len le. at_most len (le_cases len i le)
    where
      at_most : (len : ℕ) → (len ≤ i) ⊎ (len ≡ suc i) → entry tables ip len ≡ none
      at_most len (inl below) = first len below
      at_most len (inr top) = rw top e
  widen i (some fib) e (len, le, at, above) =
      (len, omega arith, at, λ longer lt le'. at_most longer lt (le_cases longer i le'))
    where
      at_most :
          (longer : ℕ)
          → len < longer
          → (longer ≤ i) ⊎ (longer ≡ suc i)
          → entry tables ip longer ≡ none
      at_most longer lt (inl below) = above longer lt below
      at_most longer lt (inr top) = rw top e

  loop-IsFirst :
      (start : ℕ)
      → start ≤ 32
      → (found : Option Fib4) × (find_ipv4_loop start ip tables ≡ some found)
        × IsFirst tables ip start found
  loop-IsFirst zero le = (entry tables ip 0, loop_zero, at_zero (entry tables ip 0) refl)
    where
      at_zero : (found : Option Fib4) → entry tables ip 0 ≡ found → IsFirst tables ip 0 found
      at_zero none e = λ len le. rw (only_zero len le) e
      at_zero (some fib) e = (0, omega arith, e, λ longer lt le. absurd (omega arith))
  loop-IsFirst (suc i) le = pick (entry tables ip (suc i)) refl (loop-IsFirst i (omega arith))
    where
      pick :
          (here : Option Fib4)
          → entry tables ip (suc i) ≡ here
          → (found : Option Fib4) × (find_ipv4_loop i ip tables ≡ some found)
            × IsFirst tables ip i found
          → (found : Option Fib4) × (find_ipv4_loop (suc i) ip tables ≡ some found)
            × IsFirst tables ip (suc i) found
      pick none e (found, returns, first) =
          (found, loop_below i le e ∙ returns, widen i found e first)
      pick (some fib) e below = (
        some fib,
        loop_here i fib le e,
        (suc i, omega arith, e, λ longer lt le'. absurd (omega arith)),
      )

route-eq-entry :
    (tables : List (FibTable Ipv4Address)) (ip : Ipv4Address) (len : ℕ)
    → 1 ≤ len
    → route tables ip len ≡ entry tables ip len
route-eq-entry tables ip zero lo = absurd (omega arith)
route-eq-entry tables ip (suc len) lo = refl

first-IsLookup :
    (tables : List (FibTable Ipv4Address)) (ip : Ipv4Address) (start : ℕ) (found : Option Fib4)
    → IsFirst tables ip start found
    → IsLookup tables ip start found
first-IsLookup tables ip start none first =
    inr (λ len lo le. route-eq-entry tables ip len lo ∙ first len le, sym (first 0 (omega arith)))
first-IsLookup tables ip start (some fib) (zero, le, at, above) =
    inr (λ len lo le'. route-eq-entry tables ip len lo ∙ above len (omega arith) le', sym at)
first-IsLookup tables ip start (some fib) (suc len, le, at, above) = inl (
  fib,
  refl,
  (
    suc len,
    omega arith,
    le,
    at,
    λ longer lt le'. route-eq-entry tables ip longer (omega arith) ∙ above longer lt le',
  ),
)

-- The lookup never panics on the 33 tables. It returns the entry for the longest of the networks of the
-- address, from 1 bit up to the length of the mask, that has one. If none of them has, it returns what the
-- table of 0 bits has under the address itself as the key, in place of its network 0.0.0.0.
pub find_ipv4_fib-IsLookup :
    (ip : Ipv4Address) (mask : ℕ) (t : Tables)
    → length t.ipv4_fib_index ≡ 33
    → InU32 ip
    → (found : Option Fib4) × (find_ipv4_fib ip mask t ≡ some found)
      × IsLookup t.ipv4_fib_index ip (ipv4_mask_to_prefixlen mask) found
unfolding find_ipv4_fib
find_ipv4_fib-IsLookup ip mask t size h =
    let len = ipv4_mask_to_prefixlen mask in
    let (found, returns, first) =
      loop-IsFirst t.ipv4_fib_index ip size h len (ipv4_mask_to_prefixlen-le mask) in
    (found, returns, first-IsLookup t.ipv4_fib_index ip len found first)

-- A default route is never used. Where 0.0.0.0 is the only key among the networks of 0 bits, and no longer
-- network of an address other than 0.0.0.0 has an entry up to the length of the mask, the default route is
-- the longest match for the address, and the lookup returns nothing.
pub no_default_route :
    (ip : Ipv4Address) (mask : ℕ) (t : Tables) (fib : Fib4)
    → length t.ipv4_fib_index ≡ 33
    → InU32 ip
    → ip.addr_prim ≢ 0
    → get_or t.ipv4_fib_index 0 [] ≡ (record { addr_prim = 0 }, fib) ∷ []
    → IsLongest t.ipv4_fib_index ip 1 (ipv4_mask_to_prefixlen mask) none
    → IsLongest t.ipv4_fib_index ip 0 (ipv4_mask_to_prefixlen mask) (some fib)
      × (find_ipv4_fib ip mask t ≡ some none)
unfolding get
no_default_route ip mask t fib size h ne default others = (
  (0, omega arith, omega arith, rw default (ground arith), λ longer lt le. others longer lt le),
  settle (find_ipv4_fib-IsLookup ip mask t size h),
)
  where
    settle :
        (found : Option Fib4) × (find_ipv4_fib ip mask t ≡ some found)
          × IsLookup t.ipv4_fib_index ip (ipv4_mask_to_prefixlen mask) found
        → find_ipv4_fib ip mask t ≡ some none
    settle (found, e, inl (fib', same, (len, lo, le, at, above))) =
        absurd (cc (others len lo le, at))
    settle (found, e, inr (nothing, same)) =
        let no_key : get ip (get_or t.ipv4_fib_index 0 []) ≡ none = rw default (ground arith) in
        e ∙ ap some (same ∙ no_key)
