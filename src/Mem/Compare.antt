-- ===== src/Mem/Compare.antt =====
-- What `memcmp` answers.
use urchin.Prelude.{ℕ, zero, suc, ◌+◌, ◌≤◌, ◌<◌, ◌≡◌, refl, arith, ◌≢◌, ◌==◌, true, false}
use native.Mathlib.Decide.{dec_le, ℕ_discrete}
use urchin.Prelude.Int.{ℤ, pos, sub_ℕ}
use urchin.Mem.{Memory, load, memcmp, memcmp_loop}

-- The answer about the offsets from `i` to `hi`: 0 if the areas agree there, and otherwise the
-- difference of the first two bytes that do not.
pub data Answer (m : Memory) (s1 s2 i hi : ℕ) (r : ℤ) : Type 0 where
  same :
      r ≡ pos 0
      → ((k : ℕ) → i ≤ k → k < hi → load m (s1 + k) ≡ load m (s2 + k))
      → Answer m s1 s2 i hi r
  differ :
      (d : ℕ)
      → i ≤ d
      → d < hi
      → ((k : ℕ) → i ≤ k → k < d → load m (s1 + k) ≡ load m (s2 + k))
      → load m (s1 + d) ≢ load m (s2 + d)
      → r ≡ sub_ℕ (load m (s1 + d)) (load m (s2 + d))
      → Answer m s1 s2 i hi r

module _ (m : Memory) (s1 s2 : ℕ) where
  earlier :
      (i hi : ℕ) (r : ℤ)
      → i < hi
      → load m (s1 + i) ≡ load m (s2 + i)
      → Answer m s1 s2 (i + 1) hi r
      → Answer m s1 s2 i hi r
  earlier i hi r lt e (same z h) = same z (λ k p q. elim (dec_le (suc i) k) [
    | yes up ↦ h k (omega arith) q
    | no here ↦ let at : k ≡ i = omega arith in rw at e
  ])
  earlier i hi r lt e (differ d lo up h ne v) =
      differ d (omega arith) up
        (λ k p q. elim (dec_le (suc i) k) [
          | yes above ↦ h k (omega arith) q
          | no here ↦ let at : k ≡ i = omega arith in rw at e
        ])
        ne v

  memcmp_loop-Answer :
      (left i hi : ℕ) → i + left ≡ hi → Answer m s1 s2 i hi (memcmp_loop m s1 s2 left i)
  unfolding memcmp_loop
  memcmp_loop-Answer zero i hi e = same refl (λ k p q. absurd (omega arith))
  memcmp_loop-Answer (suc left) i hi e = elim (ℕ_discrete (load m (s1 + i)) (load m (s2 + i))) [
    | yes eq ↦
        rw (equal eq)
          (earlier i hi _ (omega arith) eq (memcmp_loop-Answer left (i + 1) hi (omega arith)))
    | no ne ↦
        rw (unequal ne)
          (differ i (omega arith) (omega arith) (λ k p q. absurd (omega arith)) ne refl)
  ]
    where
      equal : load m (s1 + i) ≡ load m (s2 + i) → (load m (s1 + i) == load m (s2 + i)) ≡ true
      equal eq = ground arith

      unequal : load m (s1 + i) ≢ load m (s2 + i) → (load m (s1 + i) == load m (s2 + i)) ≡ false
      unequal ne = ground arith

  -- `memcmp` answers 0 if the areas agree, and otherwise the difference of the first bytes at which
  -- they do not.
  pub memcmp-Answer : (n : ℕ) → Answer m s1 s2 0 n (memcmp m s1 s2 n)
  unfolding memcmp
  memcmp-Answer n = memcmp_loop-Answer n 0 n (omega arith)
