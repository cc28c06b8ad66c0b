-- ===== src/Devices/Virtqueue/Pop.antt =====
-- `pop`, where the device has finished descriptors in the order in which they were pushed.
use mathlib.Core.Path.{subst}
use native.Mathlib.Nat.{mod-lt, add-mod_right, add-zero}
use urchin.Prelude.{
  ℕ, zero, suc, ◌+◌, ◌%◌, ◌^◌, ◌≤◌, ◌<◌, ◌≡◌, refl, ap, ◌∙◌, ◌≢◌, arith, List, [], ◌∷◌, Option,
  none, some, length, get_or, get_elem?, get_elem?-eq-get_or, set, length-set, take, drop, lt→ltb,
  ltb, u16, true, false, ◌==◌,
}
use urchin.Devices.Buffer.{Buffer}
use urchin.Devices.Virtqueue.{Virtqueue, VirtqueueUsedElement, mask_index, pop_one, pop_loop, pop}
use urchin.Devices.Virtqueue.Window.{AreHeld, AreHeld-set, IsSize_range, mask_index_lem, u16-mod}
use urchin.Devices.Virtqueue.Push.{Holds}

abbrev blank_element : VirtqueueUsedElement
blank_element = record { id = 0; len = 0 }

-- The used ring names, from the count `i` on, the places of the next `n` descriptors.
abbrev pub AreUsed : List VirtqueueUsedElement → ℕ → ℕ → ℕ → Type 0
AreUsed ring size i zero = Unit
AreUsed ring size i (suc n) =
    ((get_or ring (i % size) blank_element).id ≡ i % size) × AreUsed ring size (suc i) n

abbrev pub popped_queue : Virtqueue → ℕ → Virtqueue
popped_queue q place = record q {
  buffers = set q.buffers place none;
  last_used_idx = u16 (q.last_used_idx + 1);
}

module _ (popped : ℕ) (b : Buffer) (bs : List Buffer) (q : Virtqueue) (h : Holds popped (b ∷ bs) q)
    (room : length (b ∷ bs) ≤ q.size) where
  place-lt : popped % q.size < q.size
  place-lt = mod-lt popped (IsSize_range h.bounds.size_is).0

  used_place : mask_index q.last_used_idx q.size ≡ popped % q.size
  used_place =
      mask_index_lem h.bounds.size_is q.last_used_idx
      ∙ ap (λ x. x % q.size) h.last
      ∙ u16-mod h.bounds.size_is popped

  pop_one_returns :
      (get_or q.used_ring (popped % q.size) blank_element).id ≡ popped % q.size
      → pop_one q ≡ some (some b, popped_queue q (popped % q.size))
  unfolding pop_one
  pop_one_returns id = rw (used_place, element, id, there, held, in_buffers) refl
    where
      element :
          get_elem? q.used_ring (popped % q.size)
          ≡ some (get_or q.used_ring (popped % q.size) blank_element)
      element = get_elem?-eq-get_or q.used_ring _ blank_element (omega (arith, place-lt))

      there :
          get_elem? q.descriptor (popped % q.size)
          ≡ some (
              get_or q.descriptor
                (popped % q.size)
                (record { addr = 0; len = 0; flags = 0; next = 0 }))
      there = get_elem?-eq-get_or q.descriptor _ _ (omega (arith, place-lt))

      held : get_elem? q.buffers (popped % q.size) ≡ some (some b)
      held =
          get_elem?-eq-get_or q.buffers (popped % q.size) none (omega (arith, place-lt))
          ∙ ap some h.held.0

      in_buffers : ltb (popped % q.size) (length q.buffers) ≡ true
      in_buffers = lt→ltb _ _ (omega (arith, place-lt))

  popped-Holds : Holds (suc popped) bs (popped_queue q (popped % q.size))
  popped-Holds = record {
    bounds = record {
      size_is = h.bounds.size_is;
      descriptors = h.bounds.descriptors;
      avail = h.bounds.avail;
      used = h.bounds.used;
      slots = length-set q.buffers (popped % q.size) none ∙ h.bounds.slots;
    };
    free = h.free ∙ ap (λ n. n % q.size) (omega arith);
    pushed = omega (arith, h.pushed);
    last = omega (arith, h.last);
    held =
        subst (λ i. AreHeld (set q.buffers i none) q.size (suc popped) bs)
          (add-mod_right popped q.size)
          (AreHeld-set q.buffers q.size (suc popped) (popped + q.size) bs none (omega arith)
            (omega arith) h.held.1);
  }

pop_loop_stop :
    (rounds : ℕ) (q : Virtqueue) → q.last_used_idx ≡ q.used_idx → pop_loop rounds q ≡ some ([], q)
unfolding pop_loop
pop_loop_stop zero q e = ground arith
pop_loop_stop (suc rounds) q e = ground arith

pop_loop_step :
    (rounds : ℕ) (q q' q'' : Virtqueue) (b : Buffer) (ret : List Buffer)
    → q.last_used_idx ≢ q.used_idx
    → pop_one q ≡ some (some b, q')
    → pop_loop rounds q' ≡ some (ret, q'')
    → pop_loop (suc rounds) q ≡ some (b ∷ ret, q'')
unfolding pop_loop
pop_loop_step rounds q q' q'' b ret ne one rest = rw (other, one, rest) refl
  where
    other : (q.last_used_idx == q.used_idx) ≡ false
    other = ground arith

-- What `pop` owes: the `n` oldest buffers, and a queue that holds the others.
abbrev pub Pops : ℕ → ℕ → List Buffer → Option (List Buffer × Virtqueue) → Type 0
Pops popped n bs none = ⊥
Pops popped n bs (some (ret, q)) = (ret ≡ take n bs) × Holds (popped + n) (drop n bs) q

pop_loop-Pops :
    (rounds popped n : ℕ) (bs : List Buffer) (q : Virtqueue)
    → Holds popped bs q
    → length bs ≤ q.size
    → n ≤ length bs
    → n ≤ rounds
    → q.used_idx ≡ (popped + n) % 2 ^ 16
    → AreUsed q.used_ring q.size popped n
    → (ret : List Buffer) × (q' : Virtqueue) × (pop_loop rounds q ≡ some (ret, q'))
      × (ret ≡ take n bs)
      × Holds (popped + n) (drop n bs) q'
pop_loop-Pops rounds popped zero bs q h room le fuel used ids =
    ([], q, pop_loop_stop rounds q (omega (arith, h.last)), refl, rw add-zero h)
pop_loop-Pops zero popped (suc n) bs q h room le fuel used ids = absurd (omega arith)
pop_loop-Pops (suc rounds) popped (suc n) [] q h room le fuel used ids = absurd (omega arith)
pop_loop-Pops (suc rounds) popped (suc n) (b ∷ bs) q h room le fuel used ids =
    let q1 = popped_queue q (popped % q.size) in
    let (ret, q', returns, taken, holds) =
      pop_loop-Pops rounds (suc popped) n bs q1 (popped-Holds popped b bs q h room) (omega arith)
        (omega arith) (omega arith) (omega arith) ids.1 in
    (
      b ∷ ret,
      q',
      pop_loop_step rounds q q1 q' b ret (omega (arith, h.last, IsSize_range h.bounds.size_is))
          (pop_one_returns popped b bs q h room ids.0) returns,
      ap (λ l. b ∷ l) taken,
      subst (λ c. Holds c (drop n bs) q') (omega arith) holds,
    )

-- Where the device has finished the `n` oldest descriptors in order, `pop` returns their buffers in
-- that order, and the queue holds the others.
pub pop-Pops :
    (popped n : ℕ) (bs : List Buffer) (q : Virtqueue)
    → Holds popped bs q
    → length bs ≤ q.size
    → n ≤ length bs
    → q.used_idx ≡ (popped + n) % 2 ^ 16
    → AreUsed q.used_ring q.size popped n
    → Pops popped n bs (pop q)
unfolding pop
pop-Pops popped n bs q h room le used ids =
    let (ret, q', returns, taken, holds) =
      pop_loop-Pops (2 ^ 16) popped n bs q h room le (omega (arith, IsSize_range h.bounds.size_is))
        used ids in
    rw returns (taken, holds)
