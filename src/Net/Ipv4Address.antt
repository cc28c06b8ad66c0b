-- ===== src/Net/Ipv4Address.antt =====
-- `Ipv4Address` of src/net/ipv4.rs.
use urchin.Prelude.{
  ℕ, ◌-◌, ◌*◌, ◌%◌, ◌/◌, ◌^◌, ◌≤◌, ◌<◌, ◌≡◌, arith, List, [], ◌∷◌, ◌<<<◌, ◌>>>◌, get_or, All, ap,
  ◌∙◌, u8, sub_u32, shl_u32, bit_and,
}
use urchin.Prelude.Map.{Ord}
use urchin.Net.Bytes.{
  IsBytes, or_chain, be_number, be_bytes, or_chain-be_number, be_number-head, be_bytes-be_number,
  be_number-lt,
}
use urchin.Net.Mask.{and_mask}

pub record Ipv4Address : Type 0 where
  pub addr_prim : ℕ

unfoldable pub from_array : List ℕ → Ipv4Address
from_array arr = record {
  addr_prim =
      or_chain (get_or arr 0 0 <<< 24)
        ((get_or arr 1 0 <<< 16) ∷ (get_or arr 2 0 <<< 8) ∷ get_or arr 3 0 ∷ []);
}

-- `32 - prefix_length` is a u32.
unfoldable pub masked : Ipv4Address → ℕ → Ipv4Address
masked a prefix_length =
    let mask = shl_u32 0xffff_ffff (sub_u32 32 prefix_length) in
    record { addr_prim = bit_and a.addr_prim mask }

unfoldable pub get_array : Ipv4Address → List ℕ
get_array a =
    u8 (a.addr_prim >>> 24) ∷ u8 (a.addr_prim >>> 16) ∷ u8 (a.addr_prim >>> 8) ∷ u8 a.addr_prim ∷ []

unfoldable pub get_prim : Ipv4Address → ℕ
get_prim a = a.addr_prim

-- `Ord` and `PartialEq` look at `addr_prim`.
instance abbrev pub ipv4_ord : Ord Ipv4Address
ipv4_ord = record { prim = λ a. a.addr_prim }

abbrev pub InU32 : Ipv4Address → Type 0
InU32 a = a.addr_prim < 2 ^ 32

from_array-be_number :
    (b0 b1 b2 b3 : ℕ)
    → All (λ b. b < 256) (b0 ∷ b1 ∷ b2 ∷ b3 ∷ [])
    → (from_array (b0 ∷ b1 ∷ b2 ∷ b3 ∷ [])).addr_prim ≡ be_number 0 (b0 ∷ b1 ∷ b2 ∷ b3 ∷ [])
unfolding from_array
from_array-be_number b0 b1 b2 b3 h =
    ap (λ low. or_chain (b0 <<< 24) ((b1 <<< 16) ∷ (b2 <<< 8) ∷ low ∷ [])) (omega arith)
    ∙ or_chain-be_number b0 (b1 ∷ b2 ∷ b3 ∷ []) h.1
    ∙ be_number-head b0 (b1 ∷ b2 ∷ b3 ∷ [])

get_array-eq-be_bytes : (a : Ipv4Address) → get_array a ≡ be_bytes 4 a.addr_prim
unfolding get_array
get_array-eq-be_bytes a = ground arith

-- The bytes of an address are the four bytes that it was made of.
pub get_array-from_array : (arr : List ℕ) → IsBytes 4 arr → get_array (from_array arr) ≡ arr
get_array-from_array (b0 ∷ b1 ∷ b2 ∷ b3 ∷ []) h =
    get_array-eq-be_bytes (from_array arr)
    ∙ ap (be_bytes 4) (from_array-be_number b0 b1 b2 b3 h.bytes)
    ∙ be_bytes-be_number 0 arr h.bytes
  where
    arr : List ℕ
    arr = b0 ∷ b1 ∷ b2 ∷ b3 ∷ []
get_array-from_array _ h = absurd (omega (arith, h.size))

-- The number that four bytes make fits a u32.
pub from_array-InU32 : (arr : List ℕ) → IsBytes 4 arr → InU32 (from_array arr)
from_array-InU32 (b0 ∷ b1 ∷ b2 ∷ b3 ∷ []) h =
    rw (from_array-be_number b0 b1 b2 b3 h.bytes) (be_number-lt (b0 ∷ b1 ∷ b2 ∷ b3 ∷ []) h.bytes)
from_array-InU32 _ h = absurd (omega (arith, h.size))

-- An address is made again from its bytes.
pub from_array-get_array : (a : Ipv4Address) → InU32 a → from_array (get_array a) ≡ a
unfolding get_array
from_array-get_array a h = ap (λ p. record { addr_prim = p }) number
  where
    number : (from_array (get_array a)).addr_prim ≡ a.addr_prim
    number =
        from_array-be_number (u8 (a.addr_prim >>> 24)) (u8 (a.addr_prim >>> 16))
          (u8 (a.addr_prim >>> 8)) (u8 a.addr_prim) (omega arith)
        ∙ omega arith

-- With a prefix of 1 to 32 bits `masked` keeps those bits of an address and clears the rest.
pub masked_lem :
    (a : Ipv4Address) (p : ℕ)
    → InU32 a
    → 1 ≤ p
    → p ≤ 32
    → (masked a p).addr_prim ≡ a.addr_prim / 2 ^ (32 - p) * 2 ^ (32 - p)
unfolding masked
masked_lem a p h lo hi =
    ap (λ k. bit_and a.addr_prim (0xffff_ffff * 2 ^ k % 2 ^ 32)) (omega arith)
    ∙ and_mask 32 p a.addr_prim hi h

-- With a prefix of 0 the shift amount 32 counts as 0, and nothing is cleared.
pub masked-zero : (a : Ipv4Address) → InU32 a → masked a 0 ≡ a
unfolding masked
masked-zero a h =
    ap (λ p. record { addr_prim = p }) (and_mask 32 32 a.addr_prim (omega arith) h ∙ omega arith)
