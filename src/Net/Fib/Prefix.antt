-- ===== src/Net/Fib/Prefix.antt =====
-- `ipv4_mask_to_prefixlen`.
use urchin.Prelude.{
  ℕ, ◌-◌, ◌^◌, ◌≤◌, ◌≡◌, refl, arith, List, [], ◌∷◌, true, ◌||◌, ◌==◌, All, ◌↔◌, check_below,
  of_check_below,
}
use urchin.Net.Fib.{ipv4_mask_to_prefixlen, match_arms, mask_arms}

-- The mask with `len` ones at the top.
abbrev pub prefix_mask : ℕ → ℕ
prefix_mask len = 2 ^ 32 - 2 ^ (32 - len)

abbrev IsArm : ℕ → ℕ → Type 0
IsArm mask len = (len ≤ 32) × (mask ≡ prefix_mask len)

match_arms-IsArm :
    (arms : List (ℕ × ℕ)) (mask len : ℕ)
    → All (λ arm. IsArm arm.0 arm.1) arms
    → 1 ≤ len
    → match_arms mask arms ≡ len
    → IsArm mask len
unfolding match_arms
match_arms-IsArm [] mask len h pos e = absurd (omega arith)
match_arms-IsArm ((m, l) ∷ arms) mask len h pos e =
    ground (arith, h.0, match_arms-IsArm arms mask len h.1)

arms_right : All (λ arm. IsArm arm.0 arm.1) mask_arms
arms_right = omega arith

masks_found :
    check_below 33 (λ len. (len == 0) || (ipv4_mask_to_prefixlen (prefix_mask len) == len)) ≡ true
unfolding check_below ipv4_mask_to_prefixlen
masks_found = refl

-- For a length from 1 on the length found is `len` exactly when the mask has `len` ones at the top and no other.
pub ipv4_mask_to_prefixlen_iff :
    (mask len : ℕ)
    → 1 ≤ len
    → (ipv4_mask_to_prefixlen mask ≡ len) ↔ ((len ≤ 32) × (mask ≡ prefix_mask len))
ipv4_mask_to_prefixlen_iff mask len pos = (
  unfold ipv4_mask_to_prefixlen in match_arms-IsArm mask_arms mask len arms_right pos,
  λ h. rw h.1 (
      ground (
        arith,
        of_check_below 33 (λ l. (l == 0) || (ipv4_mask_to_prefixlen (prefix_mask l) == l)) len
            masks_found,
      )),
)

-- No mask gives a length above 32, so the table is always there.
pub ipv4_mask_to_prefixlen-le : (mask : ℕ) → ipv4_mask_to_prefixlen mask ≤ 32
ipv4_mask_to_prefixlen-le mask =
    ground (arith, ipv4_mask_to_prefixlen_iff mask (ipv4_mask_to_prefixlen mask))
