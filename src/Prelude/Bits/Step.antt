-- ===== src/Prelude/Bits/Step.antt =====
-- The native bit operations stand for a recursion on binary digits that takes fuel. Any fuel that
-- reaches the first number is enough, which gives one equation for the lowest digit.
use Prim.Native.Nat.{
  ℕ, zero, suc, ◌+◌, ◌*◌, ◌/◌, ◌%◌, ◌≤◌, min, max, digits, bitwise, bit_and, bit_or,
  bit_and-bitwise, bit_or-bitwise,
}
use mathlib.Core.Path.{◌≡◌, refl, ◌∙◌, ap}
use native.Mathlib.Decide.{dec_le}
use native.Mathlib.Omega.{arith}

module _ (rest : ℕ → ℕ) (digit : ℕ → ℕ → ℕ) where
  abbrev run : ℕ → ℕ → ℕ → ℕ
  run n x y = digits rest digit n x y

  one_more : (n x y : ℕ) → x ≤ n → run (suc n) x y ≡ run n x y
  one_more zero zero y h = refl
  one_more zero (suc x) y h = absurd (omega arith)
  one_more (suc n) zero y h = refl
  one_more (suc n) (suc x) y h = rw (one_more n (suc x / 2) (y / 2) (omega arith))

  enough : (n x y : ℕ) → x ≤ n → run n x y ≡ run x x y
  enough zero zero y h = refl
  enough zero (suc x) y h = absurd (omega arith)
  enough (suc n) x y h = elim (dec_le x n) [
    | yes below ↦ one_more n x y below ∙ enough n x y below
    | no above ↦ let same : suc n ≡ x = omega arith in ap (λ k. run k x y) same
  ]

  lowest_digit :
      (x y : ℕ)
      → bitwise rest digit (suc x) y
        ≡ bitwise rest digit (suc x / 2) (y / 2) * 2 + digit (suc x % 2) (y % 2)
  lowest_digit x y = omega (arith, enough x (suc x / 2) (y / 2) (omega arith))

pub bit_and_step : (x y : ℕ) → bit_and x y ≡ bit_and (x / 2) (y / 2) * 2 + min (x % 2) (y % 2)
bit_and_step (suc x) y = rw (bit_and-bitwise) (rw bit_and-bitwise (lowest_digit (λ _. 0) min x y))
bit_and_step zero y = omega (arith, bit_and-bitwise 0 y, bit_and-bitwise 0 (y / 2))

pub bit_or_step : (x y : ℕ) → bit_or x y ≡ bit_or (x / 2) (y / 2) * 2 + max (x % 2) (y % 2)
bit_or_step (suc x) y = rw (bit_or-bitwise) (rw bit_or-bitwise (lowest_digit (λ t. t) max x y))
bit_or_step zero y = omega (arith, bit_or-bitwise 0 y, bit_or-bitwise 0 (y / 2))
