-- ===== src/Net/Fib/Ipv6.antt =====
-- The lookup in the IPv6 tables, and the registration that runs out of them.
use urchin.Prelude.{
  ℕ, zero, suc, ◌≤◌, ◌<◌, ◌≡◌, refl, arith, List, [], Option, none, some, length, get_elem?, get_or,
  get_elem?-eq-get_or, get_elem?_of_le, ◌∙◌, ap, ◌↔◌,
}
use native.Mathlib.Decide.{dec_le}
use urchin.Prelude.Map.{get}
use urchin.Net.Ipv6Address.{Ipv6Address, ipv6_ord, InU128, masked, masked_u128_lem}
use urchin.Net.Fib.{
  Tables, FibTable, ForwardInformationBase, find_ipv6_loop, find_ipv6_fib, register_ipv6_fib,
}

abbrev pub Fib6 : Type 0
Fib6 = ForwardInformationBase Ipv6Address

-- What the table of index `len` has for the whole address.
abbrev pub host_entry : List (FibTable Ipv6Address) → Ipv6Address → ℕ → Option Fib6
host_entry tables ip len = get ip (get_or tables len [])

masked_whole : (ip : Ipv6Address) → InU128 ip → masked ip 128 ≡ ip
masked_whole ip h =
    ap (λ p. record { addr_prim = p })
      (masked_u128_lem ip 128 h (omega arith) (omega arith) ∙ omega arith)

-- The first index from `start` down whose table has the address itself as a key.
abbrev pub IsFirstHost : List (FibTable Ipv6Address) → Ipv6Address → ℕ → Option Fib6 → Type 0
IsFirstHost tables ip start none = (len : ℕ) → len ≤ start → host_entry tables ip len ≡ none
IsFirstHost tables ip start (some fib) =
    (len : ℕ) × (len ≤ start)
    × (host_entry tables ip len ≡ some fib)
    × ((above : ℕ) → len < above → above ≤ start → host_entry tables ip above ≡ none)

module _ (tables : List (FibTable Ipv6Address)) (ip : Ipv6Address) (size : length tables ≡ 129)
    (h : InU128 ip) where
  found_at :
      (len : ℕ)
      → len ≤ 128
      → (get_elem? tables len ≡ some (get_or tables len []))
        × (get (masked ip 128) (get_or tables len []) ≡ host_entry tables ip len)
  found_at len le = (
    get_elem?-eq-get_or tables len [] (omega arith),
    ap (λ k. get k (get_or tables len [])) (masked_whole ip h),
  )

  loop_zero : find_ipv6_loop 0 128 ip tables ≡ some (host_entry tables ip 0)
  unfolding find_ipv6_loop
  loop_zero = ground (arith, found_at 0)

  loop_here :
      (i : ℕ) (fib : Fib6)
      → suc i ≤ 128
      → host_entry tables ip (suc i) ≡ some fib
      → find_ipv6_loop (suc i) 128 ip tables ≡ some (some fib)
  unfolding find_ipv6_loop
  loop_here i fib le e = ground (arith, found_at (suc i) le)

  loop_below :
      (i : ℕ)
      → suc i ≤ 128
      → host_entry tables ip (suc i) ≡ none
      → find_ipv6_loop (suc i) 128 ip tables ≡ find_ipv6_loop i 128 ip tables
  unfolding find_ipv6_loop
  loop_below i le e = ground (arith, found_at (suc i) le)

  loop-IsFirstHost :
      (start : ℕ)
      → start ≤ 128
      → (found : Option Fib6) × (find_ipv6_loop start 128 ip tables ≡ some found)
        × IsFirstHost tables ip start found
  loop-IsFirstHost zero le =
      (host_entry tables ip 0, loop_zero, at_zero (host_entry tables ip 0) refl)
    where
      at_zero :
          (found : Option Fib6) → host_entry tables ip 0 ≡ found → IsFirstHost tables ip 0 found
      at_zero none e = λ len le'. let z : len ≡ 0 = omega arith in rw z e
      at_zero (some fib) e = (0, omega arith, e, λ above lt le'. absurd (omega arith))
  loop-IsFirstHost (suc i) le =
      pick (host_entry tables ip (suc i)) refl (loop-IsFirstHost i (omega arith))
    where
      widen :
          (found : Option Fib6)
          → host_entry tables ip (suc i) ≡ none
          → IsFirstHost tables ip i found
          → IsFirstHost tables ip (suc i) found
      widen none e below = λ len le'. elim (dec_le len i) [
        | yes p ↦ below len p
        | no p ↦ let top : len ≡ suc i = omega arith in rw top e
      ]
      widen (some fib) e (len, le', at, none_above) = (
        len,
        omega arith,
        at,
        λ above lt le''. elim (dec_le above i) [
          | yes p ↦ none_above above lt p
          | no p ↦ let top : above ≡ suc i = omega arith in rw top e
        ],
      )

      pick :
          (here : Option Fib6)
          → host_entry tables ip (suc i) ≡ here
          → (found : Option Fib6) × (find_ipv6_loop i 128 ip tables ≡ some found)
            × IsFirstHost tables ip i found
          → (found : Option Fib6) × (find_ipv6_loop (suc i) 128 ip tables ≡ some found)
            × IsFirstHost tables ip (suc i) found
      pick none e (found, returns, first) =
          (found, loop_below i le e ∙ returns, widen found e first)
      pick (some fib) e below = (
        some fib,
        loop_here i fib le e,
        (suc i, omega arith, e, λ above lt le'. absurd (omega arith)),
      )

-- The lookup of an IPv6 packet, which starts at 128, looks for the whole address in every table: it
-- returns the entry whose key is the address itself in the table of the largest index that has one, and
-- nothing if none has, whatever networks of the address are in the tables.
pub find_ipv6_fib-IsFirstHost :
    (ip : Ipv6Address) (t : Tables)
    → length t.ipv6_fib_index ≡ 129
    → InU128 ip
    → (found : Option Fib6) × (find_ipv6_fib ip 128 t ≡ some found)
      × IsFirstHost t.ipv6_fib_index ip 128 found
unfolding find_ipv6_fib
find_ipv6_fib-IsFirstHost ip t size h =
    loop-IsFirstHost t.ipv6_fib_index ip size h 128 (omega arith)

-- A registration in the 129 tables panics exactly when its prefix is above 128.
pub register_ipv6_fib_iff :
    (ip : Ipv6Address) (prefix : ℕ) (fib : Fib6) (t : Tables)
    → length t.ipv6_fib_index ≡ 129
    → (register_ipv6_fib ip prefix fib t ≡ none) ↔ (128 < prefix)
unfolding register_ipv6_fib
register_ipv6_fib_iff ip prefix fib t size =
    ground (
      arith,
      get_elem?_of_le t.ipv6_fib_index prefix,
      get_elem?-eq-get_or t.ipv6_fib_index prefix [],
    )
