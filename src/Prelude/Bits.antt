-- ===== src/Prelude/Bits.antt =====
-- `|` of disjoint fields, and `&` with a mask of low or of high bits, as arithmetic at every width.
mod Step
use Step.{bit_or_step, bit_and_step}
use Prim.Native.Nat.{ℕ, zero, suc, ◌+◌, ◌-◌, ◌*◌, ◌/◌, ◌%◌, ◌^◌, ◌≤◌, ◌<◌, bit_and, bit_or}
use mathlib.Core.Path.{◌≡◌, refl, ap, ◌∙◌}
use mathlib.Core.WellFounded
use native.Mathlib.Omega.{arith}
use native.Mathlib.Nat.{pow-suc, one-le-pow}
use urchin.Prelude.Order.{lt_wf}

-- Induction that goes from half a number to the number.
by_halving : (P : ℕ → Type 0) → P 0 → ((n : ℕ) → P (suc n / 2) → P (suc n)) → (n : ℕ) → P n
by_halving P base step n = WellFounded.induction lt_wf {C = P} n visit
  where
    visit : (k : ℕ) → ((m : ℕ) → m < k → P m) → P k
    visit zero ih = base
    visit (suc k) ih = step k (ih (suc k / 2) (omega arith))

bit_or-zero : (x : ℕ) → bit_or x 0 ≡ x
bit_or-zero = by_halving (λ n. bit_or n 0 ≡ n) refl λ n ih. omega (arith, bit_or_step (suc n) 0)

pub bit_and-zero : (x : ℕ) → bit_and x 0 ≡ 0
bit_and-zero = by_halving (λ n. bit_and n 0 ≡ 0) refl λ n ih. omega (arith, bit_and_step (suc n) 0)

shift_once : (hi k : ℕ) → hi * 2 ^ suc k ≡ 2 * (hi * 2 ^ k)
shift_once hi k = omega (arith, ap (λ (p : ℕ). hi * p) (pow-suc 2 k))

-- `(hi << k) | lo` is a sum when `lo` fits `k` bits.
pub bit_or_join : (k hi lo : ℕ) → lo < 2 ^ k → bit_or (hi * 2 ^ k) lo ≡ hi * 2 ^ k + lo
bit_or_join zero hi lo h = ground (arith, bit_or-zero hi)
bit_or_join (suc k) hi lo h =
    let half = bit_or_join k hi (lo / 2) (omega (arith, pow-suc 2 k)) in
    ground (arith, bit_or_step (hi * 2 ^ suc k) lo, shift_once hi k)

low_field : (k hi lo : ℕ) → lo < 2 ^ k → bit_and (hi * 2 ^ k + lo) (2 ^ k - 1) ≡ lo
low_field zero hi lo h = ground (arith, bit_and-zero (hi * 2 ^ 0 + lo))
low_field (suc k) hi lo h =
    let half = low_field k hi (lo / 2) (omega (arith, pow-suc 2 k)) in
    ground (arith, bit_and_step (hi * 2 ^ suc k + lo) (2 ^ suc k - 1), shift_once hi k, pow-suc 2 k)

-- A mask of `k` low bits takes the remainder by `2 ^ k`.
pub bit_and_low : (k x : ℕ) → bit_and x (2 ^ k - 1) ≡ x % 2 ^ k
bit_and_low k x = ground (arith, low_field k (x / 2 ^ k) (x % 2 ^ k), one-le-pow k 2)

high_field :
    (k hi m lo : ℕ) → lo < 2 ^ k → bit_and (hi * 2 ^ k + lo) (m * 2 ^ k) ≡ bit_and hi m * 2 ^ k
high_field zero hi m lo h = ground arith
high_field (suc k) hi m lo h =
    let half = high_field k hi m (lo / 2) (omega (arith, pow-suc 2 k)) in
    ground (
      arith,
      bit_and_step (hi * 2 ^ suc k + lo) (m * 2 ^ suc k),
      shift_once hi k,
      shift_once m k,
      shift_once (bit_and hi m) k,
    )

-- A mask with `k` low zeros works on the part above them.
pub bit_and_high : (k x m : ℕ) → bit_and x (m * 2 ^ k) ≡ bit_and (x / 2 ^ k) m * 2 ^ k
bit_and_high k x m = ground (arith, high_field k (x / 2 ^ k) m (x % 2 ^ k), one-le-pow k 2)

pow_sum : (p k : ℕ) → 2 ^ p * 2 ^ k ≡ 2 ^ (p + k)
pow_sum zero k = ground arith
pow_sum (suc p) k =
    let e : suc p + k ≡ suc (p + k) = omega arith in
    rw (e, pow-suc 2 p, pow-suc 2 (p + k), ← pow_sum p k) (omega arith)

pub pow-split : (n p : ℕ) → p ≤ n → 2 ^ p * 2 ^ (n - p) ≡ 2 ^ n
pow-split n p h = pow_sum p (n - p) ∙ ap (λ t. 2 ^ t) (omega arith)

-- A mask bounds what it leaves.
pub bit_and_le : (x y : ℕ) → bit_and x y ≤ y
bit_and_le x y =
    by_halving (λ n. (k : ℕ) → bit_and k n ≤ n) (λ k. omega (arith, bit_and-zero k))
      (λ n ih k. omega (arith, bit_and_step k (suc n), ih (k / 2))) y x
