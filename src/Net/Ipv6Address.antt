-- ===== src/Net/Ipv6Address.antt =====
-- `Ipv6Address` of src/net/ipv6.rs.
use urchin.Prelude.{
  ℕ, ◌-◌, ◌*◌, ◌%◌, ◌/◌, ◌^◌, ◌≤◌, ◌<◌, ◌≡◌, refl, arith, List, [], ◌∷◌, ◌<<<◌, ◌>>>◌, get_or, All,
  length, ap, sym, ◌∙◌, u8, sub_u32, shl_u128, bit_and,
}
use mathlib.Core.Path.{subst}
use urchin.Prelude.Map.{Ord}
use urchin.Net.Bytes.{
  IsBytes, or_chain, be_number, be_bytes, or_chain-be_number, be_number-head, be_bytes-be_number,
  be_number-be_bytes, be_number-lt, be_bytes-lt,
}
use urchin.Net.Mask.{and_mask}

pub record Ipv6Address : Type 0 where
  pub addr_prim : ℕ

unfoldable pub from_array : List ℕ → Ipv6Address
from_array arr = record {
  addr_prim = or_chain (get_or arr 0 0 <<< 120) (
      (get_or arr 1 0 <<< 112)
      ∷ (get_or arr 2 0 <<< 104)
      ∷ (get_or arr 3 0 <<< 96)
      ∷ (get_or arr 4 0 <<< 88)
      ∷ (get_or arr 5 0 <<< 80)
      ∷ (get_or arr 6 0 <<< 72)
      ∷ (get_or arr 7 0 <<< 64)
      ∷ (get_or arr 8 0 <<< 56)
      ∷ (get_or arr 9 0 <<< 48)
      ∷ (get_or arr 10 0 <<< 40)
      ∷ (get_or arr 11 0 <<< 32)
      ∷ (get_or arr 12 0 <<< 24)
      ∷ (get_or arr 13 0 <<< 16)
      ∷ (get_or arr 14 0 <<< 8)
      ∷ get_or arr 15 0
      ∷ []);
}

-- `128 - prefix_length` is a u32.
unfoldable pub masked : Ipv6Address → ℕ → Ipv6Address
masked a prefix_length =
    let mask = shl_u128 0xffff_ffff_ffff_ffff_ffff_ffff_ffff_ffff (sub_u32 128 prefix_length) in
    record { addr_prim = bit_and a.addr_prim mask }

unfoldable pub get_array : Ipv6Address → List ℕ
get_array a =
    u8 (a.addr_prim >>> 120)
    ∷ u8 (a.addr_prim >>> 112)
    ∷ u8 (a.addr_prim >>> 104)
    ∷ u8 (a.addr_prim >>> 96)
    ∷ u8 (a.addr_prim >>> 88)
    ∷ u8 (a.addr_prim >>> 80)
    ∷ u8 (a.addr_prim >>> 72)
    ∷ u8 (a.addr_prim >>> 64)
    ∷ u8 (a.addr_prim >>> 56)
    ∷ u8 (a.addr_prim >>> 48)
    ∷ u8 (a.addr_prim >>> 40)
    ∷ u8 (a.addr_prim >>> 32)
    ∷ u8 (a.addr_prim >>> 24)
    ∷ u8 (a.addr_prim >>> 16)
    ∷ u8 (a.addr_prim >>> 8)
    ∷ u8 a.addr_prim
    ∷ []

unfoldable pub get_prim : Ipv6Address → ℕ
get_prim a = a.addr_prim

-- `Ord` and `PartialEq` look at `addr_prim`.
instance abbrev pub ipv6_ord : Ord Ipv6Address
ipv6_ord = record { prim = λ a. a.addr_prim }

abbrev pub InU128 : Ipv6Address → Type 0
InU128 a = a.addr_prim < 2 ^ 128

abbrev last : ℕ
last = 15

from_array-be_number :
    (b0 : ℕ) (rest : List ℕ)
    → length rest ≡ last
    → All (λ b. b < 256) (b0 ∷ rest)
    → (from_array (b0 ∷ rest)).addr_prim ≡ be_number 0 (b0 ∷ rest)
unfolding from_array
from_array-be_number b0
      (b1 ∷ b2 ∷ b3 ∷ b4 ∷ b5 ∷ b6 ∷ b7 ∷ b8 ∷ b9 ∷ b10 ∷ b11 ∷ b12 ∷ b13 ∷ b14 ∷ b15 ∷ []) e h =
    ap
      (λ low. or_chain (b0 <<< 120) (
        (b1 <<< 112)
        ∷ (b2 <<< 104)
        ∷ (b3 <<< 96)
        ∷ (b4 <<< 88)
        ∷ (b5 <<< 80)
        ∷ (b6 <<< 72)
        ∷ (b7 <<< 64)
        ∷ (b8 <<< 56)
        ∷ (b9 <<< 48)
        ∷ (b10 <<< 40)
        ∷ (b11 <<< 32)
        ∷ (b12 <<< 24)
        ∷ (b13 <<< 16)
        ∷ (b14 <<< 8)
        ∷ low
        ∷ []))
      (omega arith)
    ∙ or_chain-be_number b0
        (b1 ∷ b2 ∷ b3 ∷ b4 ∷ b5 ∷ b6 ∷ b7 ∷ b8 ∷ b9 ∷ b10 ∷ b11 ∷ b12 ∷ b13 ∷ b14 ∷ b15 ∷ []) h.1
    ∙ be_number-head b0
        (b1 ∷ b2 ∷ b3 ∷ b4 ∷ b5 ∷ b6 ∷ b7 ∷ b8 ∷ b9 ∷ b10 ∷ b11 ∷ b12 ∷ b13 ∷ b14 ∷ b15 ∷ [])
from_array-be_number b0 _ e h = absurd (omega arith)

get_array-eq-be_bytes : (a : Ipv6Address) → get_array a ≡ be_bytes 16 a.addr_prim
unfolding get_array
get_array-eq-be_bytes a = ap (λ low. top low) (omega arith)
  where
    top : ℕ → List ℕ
    top low =
        u8 (a.addr_prim >>> 120)
        ∷ u8 (a.addr_prim >>> 112)
        ∷ u8 (a.addr_prim >>> 104)
        ∷ u8 (a.addr_prim >>> 96)
        ∷ u8 (a.addr_prim >>> 88)
        ∷ u8 (a.addr_prim >>> 80)
        ∷ u8 (a.addr_prim >>> 72)
        ∷ u8 (a.addr_prim >>> 64)
        ∷ u8 (a.addr_prim >>> 56)
        ∷ u8 (a.addr_prim >>> 48)
        ∷ u8 (a.addr_prim >>> 40)
        ∷ u8 (a.addr_prim >>> 32)
        ∷ u8 (a.addr_prim >>> 24)
        ∷ u8 (a.addr_prim >>> 16)
        ∷ u8 (a.addr_prim >>> 8)
        ∷ low
        ∷ []

-- The bytes of an IPv6 address are the sixteen bytes that it was made of.
pub get_array-from_array_16 : (arr : List ℕ) → IsBytes 16 arr → get_array (from_array arr) ≡ arr
get_array-from_array_16 [] h = absurd (omega (arith, h.size))
get_array-from_array_16 (b0 ∷ rest) h =
    get_array-eq-be_bytes (from_array (b0 ∷ rest))
    ∙ ap (be_bytes 16) (from_array-be_number b0 rest size h.bytes)
    ∙ ap (λ n. be_bytes n (be_number 0 (b0 ∷ rest))) (sym h.size)
    ∙ be_bytes-be_number 0 (b0 ∷ rest) h.bytes
  where
    size : length rest ≡ last
    size = omega (arith, h.size)

pub from_array-InU128 : (arr : List ℕ) → IsBytes 16 arr → InU128 (from_array arr)
from_array-InU128 [] h = absurd (omega (arith, h.size))
from_array-InU128 (b0 ∷ rest) h =
    rw (from_array-be_number b0 rest (omega (arith, h.size)) h.bytes)
      (subst (λ n. be_number 0 (b0 ∷ rest) < 2 ^ (8 * n)) h.size (be_number-lt (b0 ∷ rest) h.bytes))

-- An address is made again from its bytes.
pub from_array-get_array : (a : Ipv6Address) → InU128 a → from_array (get_array a) ≡ a
from_array-get_array a h = ap (λ p. record { addr_prim = p }) number
  where
    high : a.addr_prim / 2 ^ 128 ≡ 0
    high = omega arith

    number : (from_array (get_array a)).addr_prim ≡ a.addr_prim
    number =
        ap (λ l. (from_array l).addr_prim) (get_array-eq-be_bytes a)
        ∙ from_array-be_number (a.addr_prim / 2 ^ 120 % 256) (be_bytes 15 a.addr_prim) refl
            (be_bytes-lt 16 a.addr_prim)
        ∙ ap (λ hi. be_number hi (be_bytes 16 a.addr_prim)) (sym high)
        ∙ be_number-be_bytes 16 a.addr_prim

-- With a prefix of 1 to 128 bits `masked` keeps those bits of an IPv6 address and clears the rest.
pub masked_u128_lem :
    (a : Ipv6Address) (p : ℕ)
    → InU128 a
    → 1 ≤ p
    → p ≤ 128
    → (masked a p).addr_prim ≡ a.addr_prim / 2 ^ (128 - p) * 2 ^ (128 - p)
unfolding masked
masked_u128_lem a p h lo hi =
    ap (λ k. bit_and a.addr_prim (0xffff_ffff_ffff_ffff_ffff_ffff_ffff_ffff * 2 ^ k % 2 ^ 128))
      (omega arith)
    ∙ and_mask 128 p a.addr_prim hi h

-- With a prefix of 0 the shift amount 128 counts as 0, and nothing is cleared.
pub masked-zero : (a : Ipv6Address) → InU128 a → masked a 0 ≡ a
unfolding masked
masked-zero a h =
    ap (λ p. record { addr_prim = p }) (and_mask 128 128 a.addr_prim (omega arith) h ∙ omega arith)
