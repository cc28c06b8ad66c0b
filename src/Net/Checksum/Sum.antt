-- ===== src/Net/Checksum/Sum.antt =====
-- The sum that the loops compute, and why a stored checksum verifies.
use urchin.Prelude.{
  ℕ, zero, suc, ◌+◌, ◌*◌, ◌/◌, ◌%◌, ◌^◌, ◌≤◌, ◌<◌, ◌≡◌, refl, arith, ap, sym, ◌∙◌, List, some,
  get_or, get_elem?-eq-get_or, set, length-set, get_or-set_self, get_or-set_ne, ◌≢◌, ◌⊎◌, inl, inr,
  length, u8, u32, ◌>>>◌, All,
}
use urchin.Prelude.Bits.{bit_and_low, bit_or_join, bit_and_high}
use urchin.Net.Bytes.{get_or-lt}
use urchin.Net.Checksum.{word_at, sum_words, fold_carry, finish, swapped}

fold_carry_lem : (csum : ℕ) → csum < 2 ^ 32 → fold_carry csum ≡ csum % 65536 + csum / 65536
fold_carry_lem csum h = ap (λ low. u32 (low + (csum >>> 16))) (bit_and_low 16 csum) ∙ omega arith

-- The checksum that is stored for a sum brings it to a multiple of 65535, which is what a receiver
-- tests, whatever the carries.
pub finish_lem : (csum : ℕ) → csum < 2 ^ 32 → (csum + finish csum % 65536) % 65535 ≡ 0
unfolding finish
finish_lem csum h =
    let once = fold_carry_lem csum h in
    let twice = fold_carry_lem (fold_carry csum) (omega arith) in omega arith

-- The two bytes that are stored stand for the low 16 bits of the checksum, high byte first.
pub swapped_lem : (csum : ℕ) → swapped csum ≡ csum % 256 * 256 + csum / 256 % 256
swapped_lem csum =
    rw
      (
        bit_and_low 8 csum,
        bit_and_high 8 csum 255,
        bit_and_low 8 (csum / 256),
        bit_or_join 8 (csum % 256) (csum / 256 % 256 * 256 / 256) (omega arith),
      )
      (omega arith)

-- The sum of `n` words from word `i` on, without the bound of a u32.
abbrev pub word_sum : ℕ → ℕ → List ℕ → ℕ
word_sum zero i slice = 0
word_sum (suc n) i slice =
    get_or slice (i * 2) 0 * 256 + get_or slice (i * 2 + 1) 0 + word_sum n (i + 1) slice

word_at_lem :
    (i : ℕ) (slice : List ℕ)
    → All (λ b. b < 256) slice
    → i * 2 + 1 < length slice
    → word_at i slice ≡ some (get_or slice (i * 2) 0 * 256 + get_or slice (i * 2 + 1) 0)
word_at_lem i slice bytes h =
    rw
      (get_elem?-eq-get_or slice (i * 2) 0 (omega arith), get_elem?-eq-get_or slice (i * 2 + 1) 0 h)
      (ap some (
        bit_or_join 8 (get_or slice (i * 2) 0) (get_or slice (i * 2 + 1) 0)
          (get_or-lt slice (i * 2 + 1) bytes)))

-- The loop computes that sum, modulo 2 ^ 32.
pub sum_words_lem :
    (n i : ℕ) (slice : List ℕ) (csum : ℕ)
    → All (λ b. b < 256) slice
    → (i + n) * 2 ≤ length slice
    → csum < 2 ^ 32
    → sum_words n i slice csum ≡ some ((csum + word_sum n i slice) % 2 ^ 32)
unfolding sum_words
sum_words_lem zero i slice csum bytes h fits = ap some (omega arith)
sum_words_lem (suc n) i slice csum bytes h fits = rw (word_at_lem i slice bytes (omega arith)) (
    sum_words_lem n (i + 1) slice (u32 (csum + word)) bytes (omega arith) (omega arith)
    ∙ ap some (omega arith))
  where
    word : ℕ
    word = get_or slice (i * 2) 0 * 256 + get_or slice (i * 2 + 1) 0

pub word_sum-le :
    (n i : ℕ) (slice : List ℕ) → All (λ b. b < 256) slice → word_sum n i slice ≤ n * 65535
word_sum-le zero i slice bytes = omega arith
word_sum-le (suc n) i slice bytes = omega (
  arith,
  word_sum-le n (i + 1) slice bytes,
  get_or-lt slice (i * 2) bytes,
  get_or-lt slice (i * 2 + 1) bytes,
)

-- A slice whose word `k` is set to a u16, low byte first.
abbrev pub stored : ℕ → ℕ → List ℕ → List ℕ
stored k v slice = set (set slice (k * 2) (u8 v)) (k * 2 + 1) (u8 (v / 256))

pub get_or-stored_ne :
    (k j v : ℕ) (slice : List ℕ)
    → j ≢ k * 2
    → j ≢ k * 2 + 1
    → get_or (stored k v slice) j 0 ≡ get_or slice j 0
get_or-stored_ne k j v slice h h' =
    get_or-set_ne (set slice (k * 2) (u8 v)) (k * 2 + 1) j (u8 (v / 256)) 0 (λ e. h' (sym e))
    ∙ get_or-set_ne slice (k * 2) j (u8 v) 0 (λ e. h (sym e))

get_or-stored_lo :
    (k v : ℕ) (slice : List ℕ) → k * 2 < length slice → get_or (stored k v slice) (k * 2) 0 ≡ u8 v
get_or-stored_lo k v slice h =
    get_or-set_ne (set slice (k * 2) (u8 v)) (k * 2 + 1) (k * 2) (u8 (v / 256)) 0 (λ e. omega arith)
    ∙ get_or-set_self slice (k * 2) (u8 v) 0 h

get_or-stored_hi :
    (k v : ℕ) (slice : List ℕ)
    → k * 2 + 1 < length slice
    → get_or (stored k v slice) (k * 2 + 1) 0 ≡ u8 (v / 256)
get_or-stored_hi k v slice h =
    get_or-set_self (set slice (k * 2) (u8 v)) (k * 2 + 1) (u8 (v / 256)) 0
      (omega (arith, length-set slice (k * 2) (u8 v)))

pub word_sum-stored_below :
    (n i k v : ℕ) (slice : List ℕ) → k < i → word_sum n i (stored k v slice) ≡ word_sum n i slice
word_sum-stored_below zero i k v slice h = refl
word_sum-stored_below (suc n) i k v slice h =
    rw
      (
        get_or-stored_ne k (i * 2) v slice (λ e. omega arith) (λ e. omega arith),
        get_or-stored_ne k (i * 2 + 1) v slice (λ e. omega arith) (λ e. omega arith),
        word_sum-stored_below n (i + 1) k v slice (omega arith),
      )
      refl

word_sum-stored_first :
    (n i v : ℕ) (slice : List ℕ)
    → (i + suc n) * 2 ≤ length slice
    → get_or slice (i * 2) 0 ≡ 0
    → get_or slice (i * 2 + 1) 0 ≡ 0
    → word_sum (suc n) i (stored i v slice) ≡ word_sum (suc n) i slice + (u8 v * 256 + u8 (v / 256))
word_sum-stored_first n i v slice size z z' =
    rw
      (
        get_or-stored_lo i v slice (omega arith),
        get_or-stored_hi i v slice (omega arith),
        word_sum-stored_below n (i + 1) i v slice (omega arith),
        z,
        z',
      )
      (omega arith)

word_sum-stored :
    (n i k v : ℕ) (slice : List ℕ)
    → i ≤ k
    → k < i + n
    → (i + n) * 2 ≤ length slice
    → get_or slice (k * 2) 0 ≡ 0
    → get_or slice (k * 2 + 1) 0 ≡ 0
    → word_sum n i (stored k v slice) ≡ word_sum n i slice + (u8 v * 256 + u8 (v / 256))
word_sum-stored zero i k v slice lo hi size z z' = absurd (omega arith)
word_sum-stored (suc n) i k v slice lo hi size z z' = elim (le_dec i k lo) [
  | inl same ↦ rw (← same) (word_sum-stored_first n i v slice size (rw same z) (rw same z'))
  | inr above ↦ omega (
    arith,
    get_or-stored_ne k (i * 2) v slice (λ e. omega arith) (λ e. omega arith),
    get_or-stored_ne k (i * 2 + 1) v slice (λ e. omega arith) (λ e. omega arith),
    word_sum-stored n (i + 1) k v slice (omega arith) (omega arith) (omega arith) z z',
  )
]
  where
    le_dec : (a b : ℕ) → a ≤ b → (a ≡ b) ⊎ (a < b)
    le_dec a b h = ground arith

-- With the checksum stored in a word of the range that was 0, the words and what the sum began with add
-- up to a multiple of 65535, which is what a receiver tests.
pub sum_words-stored_verifies :
    (n i k csum : ℕ) (slice : List ℕ)
    → All (λ b. b < 256) slice
    → csum + n * 65535 < 2 ^ 32
    → i ≤ k
    → k < i + n
    → (i + n) * 2 ≤ length slice
    → get_or slice (k * 2) 0 ≡ 0
    → get_or slice (k * 2 + 1) 0 ≡ 0
    → let total = csum + word_sum n i slice in
      (sum_words n i slice csum ≡ some total)
      × ((csum + word_sum n i (stored k (swapped (finish total)) slice)) % 65535 ≡ 0)
sum_words-stored_verifies n i k csum slice bytes few lo hi size z z' = (
  sum_words_lem n i slice csum bytes size (omega arith)
      ∙ ap some (omega (arith, word_sum-le n i slice bytes)),
  let total = csum + word_sum n i slice in
      let c = finish total in
      let add = word_sum-stored n i k (swapped c) slice lo hi size z z' in
      let whole = finish_lem total (omega (arith, word_sum-le n i slice bytes)) in
      multiple total c (swapped c) (csum + word_sum n i (stored k (swapped c) slice))
        (swapped_lem c) (omega (arith, add)) whole,
)
  where
    multiple :
        (s c v s' : ℕ)
        → v ≡ c % 256 * 256 + c / 256 % 256
        → s' ≡ s + (u8 v * 256 + u8 (v / 256))
        → (s + c % 65536) % 65535 ≡ 0
        → s' % 65535 ≡ 0
    multiple s c v s' e e' h =
        let low : u8 v * 256 + u8 (v / 256) ≡ c % 65536 = omega arith in omega arith

pub word_sum-stored_verifies :
    (n i k : ℕ) (slice : List ℕ)
    → All (λ b. b < 256) slice
    → n ≤ 65535
    → i ≤ k
    → k < i + n
    → (i + n) * 2 ≤ length slice
    → get_or slice (k * 2) 0 ≡ 0
    → get_or slice (k * 2 + 1) 0 ≡ 0
    → (sum_words n i slice 0 ≡ some (word_sum n i slice))
      × (word_sum n i (stored k (swapped (finish (word_sum n i slice))) slice) % 65535 ≡ 0)
word_sum-stored_verifies n i k slice bytes few lo hi size z z' =
    let from_zero : 0 + word_sum n i slice ≡ word_sum n i slice = omega arith in
    let (returned, verifies) =
      sum_words-stored_verifies n i k 0 slice bytes (omega arith) lo hi size z z' in
    (
      returned ∙ ap some from_zero,
      ap (λ c. word_sum n i (stored k (swapped (finish c)) slice) % 65535) (sym from_zero)
          ∙ omega (arith, verifies),
    )
