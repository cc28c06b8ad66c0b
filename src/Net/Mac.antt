-- ===== src/Net/Mac.antt =====
-- `MacAddress` of src/net/ethernet.rs: the six bytes and a number that orders them.
use urchin.Prelude.{
  ℕ, ◌<◌, ◌≡◌, refl, arith, List, [], ◌∷◌, All, length, sym, ◌∙◌, ◌≡⟨◌⟩◌, ◌∎, ==_iff, ◌<<<◌, get_or,
  ◌==◌, Bool, true, ◌↔◌, ap,
}
use urchin.Prelude.Map.{Ord}
use urchin.Net.Bytes.{
  IsBytes, or_chain, be_number, be_bytes, or_chain-be_number, be_number-head, be_bytes-be_number,
  get_or-lt,
}

pub record MacAddress : Type 0 where
  pub addr : List ℕ
  pub addr_prim : ℕ

-- Byte 5 is the highest.
unfoldable pub mac_prim : List ℕ → ℕ
mac_prim addr = or_chain (get_or addr 5 0 <<< 40) (
    (get_or addr 4 0 <<< 32)
    ∷ (get_or addr 3 0 <<< 24)
    ∷ (get_or addr 2 0 <<< 16)
    ∷ (get_or addr 1 0 <<< 8)
    ∷ get_or addr 0 0
    ∷ [])

unfoldable pub new : List ℕ → MacAddress
new addr = record { addr = addr; addr_prim = mac_prim addr }

unfoldable pub get_array : MacAddress → List ℕ
get_array m = m.addr

unfoldable pub get_prim : MacAddress → ℕ
get_prim m = m.addr_prim

-- `Ord` and `PartialEq` look at `addr_prim` alone.
instance abbrev pub mac_ord : Ord MacAddress
mac_ord = record { prim = λ m. m.addr_prim }

abbrev pub mac_eq : MacAddress → MacAddress → Bool
mac_eq a b = a.addr_prim == b.addr_prim

abbrev backwards : List ℕ → List ℕ
backwards addr =
    get_or addr 5 0
    ∷ get_or addr 4 0
    ∷ get_or addr 3 0
    ∷ get_or addr 2 0
    ∷ get_or addr 1 0
    ∷ get_or addr 0 0
    ∷ []

backwards_twice : (addr : List ℕ) → length addr ≡ 6 → backwards (backwards addr) ≡ addr
backwards_twice (b0 ∷ b1 ∷ b2 ∷ b3 ∷ b4 ∷ b5 ∷ []) h = refl
backwards_twice _ h = absurd (omega arith)

backwards-lt : {addr : List ℕ} → IsBytes 6 addr → All (λ b. b < 256) (backwards addr)
backwards-lt {addr} h = omega (
  arith,
  get_or-lt addr 5 h.bytes,
  get_or-lt addr 4 h.bytes,
  get_or-lt addr 3 h.bytes,
  get_or-lt addr 2 h.bytes,
  get_or-lt addr 1 h.bytes,
  get_or-lt addr 0 h.bytes,
)

-- The number is that of the bytes read backwards.
pub mac_prim-eq-be_number :
    {addr : List ℕ} → IsBytes 6 addr → mac_prim addr ≡ be_number 0 (backwards addr)
unfolding mac_prim
mac_prim-eq-be_number {addr} h =
    ap (or_chain (get_or addr 5 0 <<< 40)) (ap links (omega arith))
    ∙ or_chain-be_number (get_or addr 5 0)
        (get_or addr 4 0
          ∷ get_or addr 3 0
          ∷ get_or addr 2 0
          ∷ get_or addr 1 0
          ∷ get_or addr 0 0
          ∷ [])
        (backwards-lt h).1
    ∙ be_number-head (get_or addr 5 0) (
        get_or addr 4 0
        ∷ get_or addr 3 0
        ∷ get_or addr 2 0
        ∷ get_or addr 1 0
        ∷ get_or addr 0 0
        ∷ [])
  where
    links : ℕ → List ℕ
    links low =
        (get_or addr 4 0 <<< 32)
        ∷ (get_or addr 3 0 <<< 24)
        ∷ (get_or addr 2 0 <<< 16)
        ∷ (get_or addr 1 0 <<< 8)
        ∷ low
        ∷ []

-- Two addresses are equal for the kernel, which compares their numbers, exactly when their six bytes
-- are equal.
pub mac_eq_iff :
    (a b : List ℕ)
    → IsBytes 6 a
    → IsBytes 6 b
    → (mac_eq (new a) (new b) ≡ true) ↔ (get_array (new a) ≡ get_array (new b))
unfolding new get_array
mac_eq_iff a b ha hb = (λ e. same e, λ e. (==_iff _ _).1 (ap mac_prim e))
  where
    same : mac_eq (new a) (new b) ≡ true → a ≡ b
    same e =
        a
        ≡⟨ sym (backwards_twice a ha.size) ⟩ backwards (backwards a)
        ≡⟨ ap backwards (sym (be_bytes-be_number 0 (backwards a) (backwards-lt ha))) ⟩
          backwards (be_bytes 6 (be_number 0 (backwards a)))
        ≡⟨ ap (λ p. backwards (be_bytes 6 p)) numbers ⟩
          backwards (be_bytes 6 (be_number 0 (backwards b)))
        ≡⟨ ap backwards (be_bytes-be_number 0 (backwards b) (backwards-lt hb)) ⟩
          backwards (backwards b)
        ≡⟨ backwards_twice b hb.size ⟩ b ∎
      where
        numbers : be_number 0 (backwards a) ≡ be_number 0 (backwards b)
        numbers = sym (mac_prim-eq-be_number ha) ∙ (==_iff _ _).0 e ∙ mac_prim-eq-be_number hb
