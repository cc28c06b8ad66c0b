-- ===== src/Net/Fib/Permanent.antt =====
-- The neighbour tables: what a registration may replace.
use urchin.Prelude.{
  ◌≡◌, arith, List, [], ◌∷◌, Option, none, some, ◌==◌, if◌then◌else◌, Bool, true, false, ◌&&◌,
}
use urchin.Prelude.Map.{Ord, BTreeMap, get, get-insert, get_of_same}
use urchin.Net.Mac.{mac_ord}
use urchin.Net.Fib.{AdjacentInformation, register_entry}

-- Whether a registration under a key may write: there is no entry yet, or one that expires.
abbrev pub writable : Option AdjacentInformation → Bool
writable none = true
writable (some adj) = elim adj.expire_time [ some e ↦ true | none ↦ false ]

module _ {K : Type 0} ⦃o : Ord K⦄ where
  -- A registration replaces the entry of its key if that is missing or expires, and changes nothing
  -- else.
  pub get-register_entry :
      (k j : K) (info : AdjacentInformation) (table : BTreeMap K AdjacentInformation)
      → get j (register_entry k info table)
        ≡ (if (o.prim k == o.prim j) && writable (get k table) then some info else get j table)
  unfolding register_entry
  get-register_entry k j info table = ground (arith, get-insert k j info table)

  -- A run of registrations.
  abbrev pub register_all :
      List (K × AdjacentInformation)
      → BTreeMap K AdjacentInformation
      → BTreeMap K AdjacentInformation
  register_all [] table = table
  register_all ((k, info) ∷ rest) table = register_all rest (register_entry k info table)

  register_entry_keeps :
      (k j : K) (info adj : AdjacentInformation) (table : BTreeMap K AdjacentInformation)
      → get j table ≡ some adj
      → adj.expire_time ≡ none
      → get j (register_entry k info table) ≡ some adj
  register_entry_keeps k j info adj table e p =
      ground (arith, get-register_entry k j info table, get_of_same k j table)

  -- A permanent entry outlives every run of registrations.
  pub permanent_stays :
      (calls : List (K × AdjacentInformation)) (j : K) (adj : AdjacentInformation)
      (table : BTreeMap K AdjacentInformation)
      → get j table ≡ some adj
      → adj.expire_time ≡ none
      → get j (register_all calls table) ≡ some adj
  permanent_stays [] j adj table e p = e
  permanent_stays ((k, info) ∷ calls) j adj table e p =
      permanent_stays calls j adj (register_entry k info table)
        (register_entry_keeps k j info adj table e p) p
