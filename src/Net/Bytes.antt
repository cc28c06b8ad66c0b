-- ===== src/Net/Bytes.antt =====
-- Arrays of bytes, the number that a chain of shifts and `|` makes of one, and the bytes that shifts
-- and casts make of a number: most significant byte first.
use urchin.Prelude.{
  ℕ, zero, suc, ◌+◌, ◌*◌, ◌/◌, ◌%◌, ◌^◌, ◌<◌, ◌≤◌, ap, ap₂, ◌∙◌, ◌≡⟨◌⟩◌, ◌∎, ◌≡◌, refl, arith, List,
  [], ◌∷◌, length, get_or, bit_or, All,
}
use native.Mathlib.Nat.{one-le-pow, mul-add-div_right, div-eq_of_lt, div-div-eq-div-mul, mul_comm}
use native.Mathlib.Numerals.{towards_suc}
use urchin.Prelude.Bits.{bit_or_join}

-- A `[u8; n]`.
pub record IsBytes (n : ℕ) (arr : List ℕ) : Type 0 where
  pub size : length arr ≡ n
  pub bytes : All (λ b. b < 256) arr

byte_fits : (b s : ℕ) → b < 256 → 0 < s → b * s < 256 * s
byte_fits b s h p = let up : suc b * s ≤ 256 * s = grind arith in omega (arith, up)

-- One link of a chain `… | (b as uN) << k`, where `s` is 2 ^ k and what stands on the left has
-- nothing below the byte above.
pub or_byte :
    (k s hi b left : ℕ)
    → 2 ^ k ≡ 256 * s
    → 0 < s
    → b < 256
    → left ≡ hi * (256 * s)
    → bit_or left (b * s) ≡ (hi * 256 + b) * s
or_byte k s hi b left p pos h e =
    bit_or left (b * s)
    ≡⟨ ap (λ l. bit_or l (b * s)) (rw p e) ⟩ bit_or (hi * 2 ^ k) (b * s)
    ≡⟨ bit_or_join k hi (b * s) (rw p (byte_fits b s h pos)) ⟩ hi * 2 ^ k + b * s
    ≡⟨ rw p (omega arith) ⟩ (hi * 256 + b) * s ∎

-- `x | y | z …`, as it associates.
abbrev pub or_chain : ℕ → List ℕ → ℕ
or_chain acc [] = acc
or_chain acc (x ∷ xs) = or_chain (bit_or acc x) xs

-- The links of such a chain for the bytes of an array.
abbrev pub shifted : List ℕ → List ℕ
shifted [] = []
shifted (b ∷ bs) = b * 2 ^ (8 * length bs) ∷ shifted bs

-- The number whose digits to the base 256 are `hi` and the bytes.
abbrev pub be_number : ℕ → List ℕ → ℕ
be_number hi [] = hi
be_number hi (b ∷ bs) = be_number (hi * 256 + b) bs

-- The lowest `n` bytes of a number.
abbrev pub be_bytes : ℕ → ℕ → List ℕ
be_bytes zero p = []
be_bytes (suc n) p = p / 2 ^ (8 * n) % 256 ∷ be_bytes n p

pow_byte : (n : ℕ) → 2 ^ (8 * suc n) ≡ 256 * 2 ^ (8 * n)
pow_byte n = let e : 8 * suc n ≡ 8 * n + 8 = omega arith in rw e (simp towards_suc (omega arith))

pub pow_pos : (n : ℕ) → 0 < 2 ^ n
pow_pos n = one-le-pow n 2 (omega arith)

pub or_chain-be_number :
    (hi : ℕ) (bs : List ℕ)
    → All (λ b. b < 256) bs
    → or_chain (hi * 2 ^ (8 * length bs)) (shifted bs) ≡ be_number hi bs
or_chain-be_number hi [] h = ground arith
or_chain-be_number hi (b ∷ bs) h =
    ap (λ acc. or_chain acc (shifted bs)) join ∙ or_chain-be_number (hi * 256 + b) bs h.1
  where
    join :
        bit_or (hi * 2 ^ (8 * suc (length bs))) (b * 2 ^ (8 * length bs))
        ≡ (hi * 256 + b) * 2 ^ (8 * length bs)
    join =
        or_byte (8 * suc (length bs)) (2 ^ (8 * length bs)) hi b _ (pow_byte (length bs))
          (pow_pos (8 * length bs)) h.0 (ap (λ p. hi * p) (pow_byte (length bs)))

pub be_number-head : (b : ℕ) (bs : List ℕ) → be_number b bs ≡ be_number 0 (b ∷ bs)
be_number-head b bs = ap (λ hi. be_number hi bs) (omega arith)

be_number_split :
    (hi : ℕ) (bs : List ℕ)
    → All (λ b. b < 256) bs
    → (r : ℕ) × (r < 2 ^ (8 * length bs)) × (be_number hi bs ≡ hi * 2 ^ (8 * length bs) + r)
be_number_split hi [] h = (0, omega arith, ground arith)
be_number_split hi (b ∷ bs) h =
    let (r, fits, e) = be_number_split (hi * 256 + b) bs h.1 in
    let P = 2 ^ (8 * length bs) in
    let byte = byte_fits b P h.0 (pow_pos (8 * length bs)) in
    let up : suc b * P ≤ 256 * P = grind arith in
    (
      b * P + r,
      rw (pow_byte (length bs)) (omega arith),
      e ∙ rw (pow_byte (length bs)) (omega arith),
    )

-- A number below its range of bytes is that of its bytes.
pub be_number-lt : (bs : List ℕ) → All (λ b. b < 256) bs → be_number 0 bs < 2 ^ (8 * length bs)
be_number-lt bs h = let (r, fits, e) = be_number_split 0 bs h in omega arith

pub be_bytes-be_number :
    (hi : ℕ) (bs : List ℕ) → All (λ b. b < 256) bs → be_bytes (length bs) (be_number hi bs) ≡ bs
be_bytes-be_number hi [] h = refl
be_bytes-be_number hi (b ∷ bs) h =
    let (r, fits, e) = be_number_split (hi * 256 + b) bs h.1 in
    ap₂ ◌∷◌ (top r fits e) (be_bytes-be_number (hi * 256 + b) bs h.1)
  where
    top :
        (r : ℕ)
        → r < 2 ^ (8 * length bs)
        → be_number (hi * 256 + b) bs ≡ (hi * 256 + b) * 2 ^ (8 * length bs) + r
        → be_number (hi * 256 + b) bs / 2 ^ (8 * length bs) % 256 ≡ b
    top r fits e =
        rw (e, mul-add-div_right (pow_pos (8 * length bs)) (hi * 256 + b) r, div-eq_of_lt fits)
          (omega arith)

pub be_number-be_bytes : (n p : ℕ) → be_number (p / 2 ^ (8 * n)) (be_bytes n p) ≡ p
be_number-be_bytes zero p = omega arith
be_number-be_bytes (suc n) p = ap (λ hi. be_number hi (be_bytes n p)) digit ∙ be_number-be_bytes n p
  where
    digit : p / 2 ^ (8 * suc n) * 256 + p / 2 ^ (8 * n) % 256 ≡ p / 2 ^ (8 * n)
    digit = rw (pow_byte n, mul_comm 256, ← div-div-eq-div-mul p) (omega arith)

pub be_bytes-lt : (n p : ℕ) → All (λ b. b < 256) (be_bytes n p)
be_bytes-lt zero p = tt
be_bytes-lt (suc n) p = (omega arith, be_bytes-lt n p)

pub length-be_bytes : (n p : ℕ) → length (be_bytes n p) ≡ n
length-be_bytes zero p = refl
length-be_bytes (suc n) p = ap suc (length-be_bytes n p)

pub get_or-lt : (arr : List ℕ) (i : ℕ) → All (λ b. b < 256) arr → get_or arr i 0 < 256
get_or-lt [] i h = omega arith
get_or-lt (b ∷ arr) zero h = h.0
get_or-lt (b ∷ arr) (suc i) h = get_or-lt arr i h.1
