-- ===== src/Net/Mask.antt =====
-- `self.addr_prim & (!0 << (bits - prefix_length))`, the mask of both address types, as arithmetic.
use native.Mathlib.Nat.{mul-add-mod_self_right, one-le-pow, mod-eq_of_lt, div-lt_iff_lt-mul}
use urchin.Prelude.{
  ℕ, zero, suc, ◌+◌, ◌-◌, ◌*◌, ◌/◌, ◌%◌, ◌^◌, ◌≤◌, ◌<◌, ◌≡◌, ap, ◌≡⟨◌⟩◌, ◌∎, arith, bit_and,
}
use urchin.Prelude.Bits.{bit_and_high, bit_and_low, pow-split}

-- (P * K - 1) * K wraps at P * K to the ones above K.
wrapped_mask : (P K : ℕ) → 0 < P → 0 < K → (P * K - 1) * K % (P * K) ≡ (P - 1) * K
wrapped_mask zero K hp hk = absurd (omega arith)
wrapped_mask (suc p) zero hp hk = absurd (omega arith)
wrapped_mask (suc p) (suc k) hp hk =
    let ones : suc p * suc k - 1 ≡ p * suc k + k = omega arith in
    let turn : (p * suc k + k) * suc k ≡ k * (suc p * suc k) + p * suc k = omega arith in
    let fits : p * suc k < suc p * suc k = omega arith in
    let last : (suc p - 1) * suc k ≡ p * suc k = ap (λ t. t * suc k) (omega arith) in
    rw (ones, turn, mul-add-mod_self_right, mod-eq_of_lt fits, last)

-- With a prefix of 1 to `bits` bits the mask keeps the prefix and clears what is below it.
pub and_mask :
    (bits p a : ℕ)
    → p ≤ bits
    → a < 2 ^ bits
    → bit_and a ((2 ^ bits - 1) * 2 ^ (bits - p) % 2 ^ bits) ≡ a / 2 ^ (bits - p) * 2 ^ (bits - p)
and_mask bits p a hi h =
    bit_and a ((2 ^ bits - 1) * K % 2 ^ bits)
    ≡⟨ ap (bit_and a)
        (rw (← pow-split bits p hi) (wrapped_mask P K (one-le-pow p 2 (omega arith)) pos)) ⟩
      bit_and a ((P - 1) * K)
    ≡⟨ bit_and_high (bits - p) a (P - 1) ⟩ bit_and (a / K) (P - 1) * K
    ≡⟨ ap (λ t. t * K) (bit_and_low p (a / K)) ⟩ a / K % P * K
    ≡⟨ ap (λ t. t * K) (mod-eq_of_lt ((div-lt_iff_lt-mul pos).1 (rw (pow-split bits p hi) h))) ⟩
      a / K * K ∎
  where
    P : ℕ
    P = 2 ^ p

    K : ℕ
    K = 2 ^ (bits - p)

    pos : 0 < 2 ^ (bits - p)
    pos = one-le-pow (bits - p) 2 (omega arith)
