-- ===== src/Devices/Buffer/Laws.antt =====
-- What an allocation is large enough for, and where a slice lies in it.
use native.Mathlib.Nat.{lt-div-mul-add, div-mul-le_self, div-le_self, mul-mod_left, mod-eq_of_lt}
use urchin.Prelude.{
  ℕ, ◌+◌, ◌-◌, ◌*◌, ◌/◌, ◌%◌, ◌^◌, ◌≤◌, ◌<◌, ◌≡◌, arith, List, [], ◌∷◌, zero, suc, refl, ap, ◌∙◌,
  take, length, drop, length-drop, drop-drop, sym, usize, sub_usize,
}
use urchin.Devices.Buffer.{Buffer, actual_size, slide_position, slice_len, slice}

module _ (size align : ℕ) (hs : 1 ≤ size) (ha : 1 ≤ align) (fits : size + align ≤ 2 ^ 64) where
  abbrev blocks : ℕ
  blocks = (size - 1) / align

  above : size - 1 < blocks * align + align
  above = lt-div-mul-add ha

  below : blocks * align ≤ size - 1
  below = div-mul-le_self (size - 1) align

  few : blocks ≤ size - 1
  few = div-le_self (size - 1) align

  rounded : actual_size size align ≡ (blocks + 1) * align
  unfolding actual_size
  rounded =
      let start : sub_usize size 1 ≡ size - 1 = omega arith in
      let no_wrap : usize (blocks + 1) ≡ blocks + 1 = omega (arith, few) in
      let area : (blocks + 1) * align ≡ blocks * align + align = omega arith in
      rw (start, no_wrap) (mod-eq_of_lt (omega (arith, area, below)))

  -- The size asked for is rounded up to the next multiple of the alignment, if that does not leave
  -- the address space.
  pub actual_size_lem :
      (size ≤ actual_size size align)
      × (actual_size size align < size + align)
      × (actual_size size align % align ≡ 0)
  actual_size_lem =
      let area : (blocks + 1) * align ≡ blocks * align + align = omega arith in
      (
        rw rounded (omega (arith, above, area)),
        rw rounded (omega (arith, below, area)),
        rw rounded (mul-mod_left (blocks + 1) align),
      )

take_all : (n : ℕ) (xs : List ℕ) → length xs ≤ n → take n xs ≡ xs
take_all zero [] h = refl
take_all zero (x ∷ xs) h = absurd (omega arith)
take_all (suc n) [] h = refl
take_all (suc n) (x ∷ xs) h = ap (λ l. x ∷ l) (take_all n xs (omega arith))

pub slice-eq-drop :
    (b : Buffer)
    → length b.memory ≡ b.layout.size
    → b.layout.size < 2 ^ 64
    → b.position ≤ b.layout.size
    → slice b ≡ drop b.position b.memory
unfolding slice slice_len
slice-eq-drop b mem small fits =
    take_all (slice_len b) (drop b.position b.memory)
      (omega (arith, length-drop b.position b.memory))

-- Sliding by `delta` drops the first `delta` bytes of the slice and shortens its length by as many, as
-- long as they lie in it and the memory is as long as the layout says.
pub slice-slide_position :
    (b : Buffer) (delta : ℕ)
    → length b.memory ≡ b.layout.size
    → b.layout.size < 2 ^ 64
    → b.position + delta ≤ b.layout.size
    → (slice (slide_position b delta) ≡ drop delta (slice b))
      × (slice_len (slide_position b delta) ≡ slice_len b - delta)
      × (slice_len b ≡ length (slice b))
unfolding slide_position slice_len
slice-slide_position b delta mem small fits = (
  slice-eq-drop (slide_position b delta) mem small (omega arith)
      ∙ rw wraps_not (sym (drop-drop b.position delta b.memory))
      ∙ ap (drop delta) (sym whole),
  omega arith,
  omega (arith, length-drop b.position b.memory, ap length whole),
)
  where
    wraps_not : usize (b.position + delta) ≡ b.position + delta
    wraps_not = omega arith

    whole : slice b ≡ drop b.position b.memory
    whole = slice-eq-drop b mem small (omega arith)
