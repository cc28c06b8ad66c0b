-- ===== src/Net/Checksum.antt =====
-- The Internet checksum as src/net/ipv4.rs and src/net/ipv6.rs compute it, on u32 values.
pub mod Sum
mod Tests
use urchin.Prelude.{
  ℕ, zero, suc, ◌+◌, ◌-◌, ◌*◌, ◌/◌, ◌%◌, ◌^◌, ◌≤◌, ◌<◌, ◌≡◌, refl, arith, List, [], ◌∷◌, Option,
  none, some, get_elem?, u8, u16, u32, bit_and, bit_or, ◌<<<◌, ◌>>>◌, ◌>>=◌,
}

-- `(slice[i*2] as u32) << 8 | (slice[i*2+1] as u32)`
abbrev pub word_at : ℕ → List ℕ → Option ℕ
word_at i slice = do
  hi ← get_elem? slice (i * 2)
  lo ← get_elem? slice (i * 2 + 1)
  some (bit_or (hi <<< 8) lo)

-- `for i in start..start + left { csum = csum + word }`
unfoldable pub sum_words : ℕ → ℕ → List ℕ → ℕ → Option ℕ
sum_words zero i slice csum = some csum
sum_words (suc left) i slice csum =
    word_at i slice >>= λ word. sum_words left (i + 1) slice (u32 (csum + word))

-- `(csum & 0x0000ffff) + (csum >> 16)`
abbrev pub fold_carry : ℕ → ℕ
fold_carry csum = u32 (bit_and csum 0xffff + (csum >>> 16))

-- Two folds, and `!csum`.
unfoldable pub finish : ℕ → ℕ
finish csum = 2 ^ 32 - 1 - fold_carry (fold_carry csum)

-- The u16 that is stored for it, low byte first: `((csum & 0x00ff) << 8 | (csum & 0xff00) >> 8) as u16`.
abbrev pub swapped : ℕ → ℕ
swapped csum = u16 (bit_or (bit_and csum 0xff <<< 8) (bit_and csum 0xff00 >>> 8))
