-- ===== src/Prelude/Map.antt =====
-- Rust's `BTreeMap`: keys with values, in the order of the keys. The kernel's key types are ordered
-- by one number, so `Ord` gives that number and two keys with one number are the same key.
use urchin.Prelude.Tests.{ltb, ◌==◌, if◌then◌else◌}
use Prim.Native.Nat.{ℕ, ◌<◌}
use mathlib.Core.Path.{◌≡◌, refl}
use mathlib.Core.List.{List, [], ◌∷◌}
use mathlib.Core.Option.{Option, none, some}
use native.Mathlib.Omega.{arith}

pub record Ord {ℓ} (K : Type ℓ) : Type ℓ where
  pub prim : K → ℕ

abbrev pub BTreeMap {ℓ κ} : Type ℓ → Type κ → Type (ℓ ⊔ κ)
BTreeMap K V = List (K × V)

module _ {ℓ κ} {K : Type ℓ} {V : Type κ} ⦃o : Ord K⦄ where
  unfoldable pub get : K → BTreeMap K V → Option V
  get k [] = none
  get k ((j, v) ∷ m) = if o.prim j == o.prim k then some v else get k m

  -- On a key that is present the value is replaced and the old key stays, as in the library.
  unfoldable pub insert : K → V → BTreeMap K V → BTreeMap K V
  insert k v [] = (k, v) ∷ []
  insert k v ((j, w) ∷ m) =
      if ltb (o.prim k) (o.prim j)
      then (k, v) ∷ (j, w) ∷ m
      else if o.prim j == o.prim k
      then (j, v) ∷ m
      else (j, w) ∷ insert k v m

  pub get-insert :
      (k j : K) (v : V) (m : BTreeMap K V)
      → get j (insert k v m) ≡ (if o.prim k == o.prim j then some v else get j m)
  unfolding get insert
  get-insert k j v [] = refl
  get-insert k j v ((i, w) ∷ m) = ground (arith, get-insert k j v m)

  pub get-insert_self : (k : K) (v : V) (m : BTreeMap K V) → get k (insert k v m) ≡ some v
  get-insert_self k v m = ground (arith, get-insert k k v m)

  pub get-insert_ne :
      (k j : K) (v : V) (m : BTreeMap K V)
      → (o.prim k ≡ o.prim j → ⊥)
      → get j (insert k v m) ≡ get j m
  get-insert_ne k j v m h = ground (arith, get-insert k j v m)

  -- The keys stand in increasing order, and every key is above `lo`.
  abbrev pub SortedAbove : ℕ → BTreeMap K V → Type 0
  SortedAbove lo [] = Unit
  SortedAbove lo ((j, w) ∷ m) = (lo < o.prim j) × SortedAbove (o.prim j) m

  abbrev pub IsSorted : BTreeMap K V → Type 0
  IsSorted [] = Unit
  IsSorted ((j, w) ∷ m) = SortedAbove (o.prim j) m

  insert-SortedAbove :
      (lo : ℕ) (k : K) (v : V) (m : BTreeMap K V)
      → lo < o.prim k
      → SortedAbove lo m
      → SortedAbove lo (insert k v m)
  unfolding insert
  insert-SortedAbove lo k v [] h s = ground arith
  insert-SortedAbove lo k v ((j, w) ∷ m) h s = ground (arith, insert-SortedAbove (o.prim j) k v m)

  -- An insertion keeps the order of the keys.
  pub insert-IsSorted : (k : K) (v : V) (m : BTreeMap K V) → IsSorted m → IsSorted (insert k v m)
  unfolding insert
  insert-IsSorted k v [] s = ground arith
  insert-IsSorted k v ((j, w) ∷ m) s = ground (arith, insert-SortedAbove (o.prim j) k v m)

  -- A key counts by its number alone.
  pub get_of_same : (k j : K) (m : BTreeMap K V) → o.prim k ≡ o.prim j → get k m ≡ get j m
  unfolding get
  get_of_same k j [] e = refl
  get_of_same k j ((i, w) ∷ m) e = ground (arith, get_of_same k j m e)
