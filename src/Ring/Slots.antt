-- ===== src/Ring/Slots.antt =====
-- The slots between the two indices of a ring, in the order in which `get` reads them.
use urchin.Prelude.{
  ℕ, zero, suc, ◌+◌, ◌-◌, ◌%◌, ◌<◌, ◌≡◌, refl, ap, ap₂, ◌≢◌, arith, List, [], ◌∷◌, ◌++◌, Option,
  none, some, length, get_or, set, map, get_or-set_self, get_or-set_ne,
}
use urchin.Ring.{RingBuffer, ringbuf_length, next_index}

module _ {A : Type 0} where
  abbrev pub slots : List (Option A) → ℕ → ℕ → List (Option A)
  slots buf i zero = []
  slots buf i (suc n) = get_or buf i none ∷ slots buf (next_index i) n

  -- How many slots lie between the indices.
  abbrev pub used : RingBuffer A → ℕ
  used r = (r.writeidx + ringbuf_length - r.readidx) % ringbuf_length

  abbrev pub contents : RingBuffer A → List (Option A)
  contents r = slots r.buffer r.readidx (used r)

  pub record InRange (r : RingBuffer A) : Type 0 where
    pub slots_there : length r.buffer ≡ ringbuf_length
    pub read_in : r.readidx < ringbuf_length
    pub write_in : r.writeidx < ringbuf_length

  -- The ring `r` holds the items of `q`, oldest first.
  pub record Holds (q : List A) (r : RingBuffer A) : Type 0 where
    pub in_range : InRange r
    pub filled : contents r ≡ map some q

  pub length-slots : (buf : List (Option A)) (i n : ℕ) → length (slots buf i n) ≡ n
  length-slots buf i zero = refl
  length-slots buf i (suc n) = ap suc (length-slots buf (next_index i) n)

  pub length-map-some : (q : List A) → length (map some q) ≡ length q
  length-map-some [] = refl
  length-map-some (x ∷ q) = ap suc (length-map-some q)

  pub slots_of_pos :
      (buf : List (Option A)) (i n : ℕ)
      → 0 < n
      → slots buf i n ≡ get_or buf i none ∷ slots buf (next_index i) (n - 1)
  slots_of_pos buf i zero h = absurd (omega arith)
  slots_of_pos buf i (suc n) h = ap (λ k. slots buf i (suc k)) (omega arith)

  -- A store just behind the last slot appends it.
  pub slots-set :
      (buf : List (Option A)) (x : Option A) (n i j : ℕ)
      → length buf ≡ ringbuf_length
      → i < ringbuf_length
      → n < ringbuf_length
      → j ≡ (i + n) % ringbuf_length
      → slots (set buf j x) i (suc n) ≡ slots buf i n ++ (x ∷ [])
  slots-set buf x zero i j len hi hn e =
      let same : j ≡ i = omega arith in rw (same, get_or-set_self buf i x none (omega arith))
  slots-set buf x (suc n) i j len hi hn e =
      let apart : j ≢ i = omega arith in
      ap₂ ◌∷◌ (get_or-set_ne buf j i x none apart)
        (slots-set buf x n (next_index i) j len (omega arith) (omega arith) (omega arith))
