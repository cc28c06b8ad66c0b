-- ===== src/Mem/Copy.antt =====
-- What the loops that write leave in the memory, byte by byte.
use urchin.Prelude.{
  ℕ, zero, suc, ◌+◌, ◌≤◌, ◌<◌, ◌≡◌, refl, ◌∙◌, ◌⊎◌, inl, inr, arith, length, set, length-set,
  get_or-set_self, get_or-set_ne, ltb, Bool-cases, ltb→lt, u8,
}
use urchin.Mem.{Memory, load, memset, memset_loop, copy_up, copy_down, memcpy, memmove}

-- `out` is `m` with the `n` bytes from `dest` on replaced by what `value` gives for their offsets.
pub record IsFilled (dest lo hi : ℕ) (value : ℕ → ℕ) (m out : Memory) : Type 0 where
  pub same_length : length out ≡ length m
  pub inside : (k : ℕ) → lo ≤ k → k < hi → load out (dest + k) ≡ value k
  pub outside : (j : ℕ) → (j < dest + lo) ⊎ (dest + hi ≤ j) → load out j ≡ load m j

nothing : (dest i : ℕ) (value : ℕ → ℕ) (m : Memory) → IsFilled dest i i value m m
nothing dest i value m = record {
  same_length = refl;
  inside = λ k p q. absurd (omega arith);
  outside = λ j p. refl;
}

-- One byte written below a part that is filled later.
before :
    (dest i hi v : ℕ) (value : ℕ → ℕ) (m out : Memory)
    → i < hi
    → dest + i < length m
    → v ≡ value i
    → IsFilled dest (i + 1) hi value (set m (dest + i) v) out
    → IsFilled dest i hi value m out
before dest i hi v value m out lt fits e rest = record {
  same_length = rest.same_length ∙ length-set m (dest + i) v;
  inside = λ k p q.
      ground (arith, rest.inside k, rest.outside (dest + k), get_or-set_self m (dest + i) v 0);
  outside = λ j p. ground (arith, rest.outside j, get_or-set_ne m (dest + i) j v 0);
}

-- One byte written above a part that is filled later.
above :
    (dest i v : ℕ) (value : ℕ → ℕ) (m out : Memory)
    → dest + i < length m
    → v ≡ value i
    → IsFilled dest 0 i value (set m (dest + i) v) out
    → IsFilled dest 0 (suc i) value m out
above dest i v value m out fits e rest = record {
  same_length = rest.same_length ∙ length-set m (dest + i) v;
  inside = λ k p q.
      ground (arith, rest.inside k, rest.outside (dest + k), get_or-set_self m (dest + i) v 0);
  outside = λ j p. ground (arith, rest.outside j, get_or-set_ne m (dest + i) j v 0);
}

copy_up-IsFilled :
    (dest src left i hi : ℕ) (value : ℕ → ℕ) (m : Memory)
    → i + left ≡ hi
    → dest + hi ≤ length m
    → (dest ≤ src) ⊎ (src + hi ≤ dest)
    → ((k : ℕ) → i ≤ k → k < hi → load m (src + k) ≡ value k)
    → IsFilled dest i hi value m (copy_up dest src left i m)
unfolding copy_up
copy_up-IsFilled dest src zero i hi value m e fits safe source =
    let same : i ≡ hi = omega arith in rw (← same) (nothing dest i value m)
copy_up-IsFilled dest src (suc left) i hi value m e fits safe source =
    before dest i hi (load m (src + i)) value m _ (omega arith) (omega arith)
      (source i (omega arith) (omega arith))
      (copy_up-IsFilled dest src left (i + 1) hi value (set m (dest + i) (load m (src + i)))
        (omega arith) (omega (arith, length-set m (dest + i) (load m (src + i)))) safe
        (λ k p q.
          get_or-set_ne m (dest + i) (src + k) _ 0 (omega arith) ∙ source k (omega arith) q))

copy_down-IsFilled :
    (dest src i : ℕ) (value : ℕ → ℕ) (m : Memory)
    → dest + i ≤ length m
    → src < dest
    → ((k : ℕ) → k < i → load m (src + k) ≡ value k)
    → IsFilled dest 0 i value m (copy_down dest src i m)
unfolding copy_down
copy_down-IsFilled dest src zero value m fits lt source = nothing dest 0 value m
copy_down-IsFilled dest src (suc i) value m fits lt source =
    above dest i (load m (src + i)) value m _ (omega arith) (source i (omega arith)) (
      copy_down-IsFilled dest src i value (set m (dest + i) (load m (src + i)))
        (omega (arith, length-set m (dest + i) (load m (src + i)))) lt
        (λ k p. get_or-set_ne m (dest + i) (src + k) _ 0 (omega arith) ∙ source k (omega arith)))

memset_loop-IsFilled :
    (s c left i hi : ℕ) (m : Memory)
    → i + left ≡ hi
    → s + hi ≤ length m
    → IsFilled s i hi (λ k. u8 c) m (memset_loop s c left i m)
unfolding memset_loop
memset_loop-IsFilled s c zero i hi m e fits =
    let same : i ≡ hi = omega arith in rw (← same) (nothing s i (λ k. u8 c) m)
memset_loop-IsFilled s c (suc left) i hi m e fits =
    before s i hi (u8 c) (λ k. u8 c) m _ (omega arith) (omega arith) refl
      (memset_loop-IsFilled s c left (i + 1) hi (set m (s + i) (u8 c)) (omega arith)
        (omega (arith, length-set m (s + i) (u8 c))))

-- `memmove` puts the bytes that stood at `src` at `dest`, however the two areas overlap, and leaves
-- all else as it was, if the area at `dest` lies in the memory.
pub memmove-IsFilled :
    (dest src n : ℕ) (m : Memory)
    → dest + n ≤ length m
    → IsFilled dest 0 n (λ k. load m (src + k)) m (memmove dest src n m)
unfolding memmove
memmove-IsFilled dest src n m fits = elim (Bool-cases (ltb src dest)) [
  | inl lt ↦
      rw lt
        (copy_down-IsFilled dest src n (λ k. load m (src + k)) m fits (ltb→lt _ _ lt) (λ k p. refl))
  | inr ge ↦ rw ge (
      copy_up-IsFilled dest src n 0 n (λ k. load m (src + k)) m (omega arith) fits
        (inl (ground arith)) (λ k p q. refl))
]

-- `memcpy` puts the bytes that stood at `src` at `dest` and leaves all else as it was, where `dest`
-- does not lie behind `src` or the areas do not overlap, and the area at `dest` lies in the memory.
pub memcpy-IsFilled :
    (dest src n : ℕ) (m : Memory)
    → dest + n ≤ length m
    → (dest ≤ src) ⊎ (src + n ≤ dest)
    → IsFilled dest 0 n (λ k. load m (src + k)) m (memcpy dest src n m)
unfolding memcpy
memcpy-IsFilled dest src n m fits safe =
    copy_up-IsFilled dest src n 0 n (λ k. load m (src + k)) m (omega arith) fits safe
      (λ k p q. refl)

-- `memset` writes the low byte of its argument to each byte of the area, and nothing else, if
-- the area lies in the memory.
pub memset-IsFilled :
    (s c n : ℕ) (m : Memory) → s + n ≤ length m → IsFilled s 0 n (λ k. u8 c) m (memset s c n m)
unfolding memset
memset-IsFilled s c n m fits = memset_loop-IsFilled s c n 0 n m (omega arith) fits
