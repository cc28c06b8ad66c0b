-- ===== src/Ring/Refine.antt =====
-- Running alone, the ring is the queue of its items.
use urchin.Prelude.{
  ℕ, zero, suc, ◌-◌, ◌<◌, ◌≡◌, refl, sym, ap, ◌≢◌, inl, inr, arith, Bool-cases, ltb, ltb→lt, lt→ltb,
  true, false, ◌≡⟨◌⟩◌, ◌∎, List, [], ◌∷◌, ◌++◌, Option, none, some, length, get_elem?, set, map,
  length-set, get_elem?-eq-get_or, length-replicate,
}
use mathlib.Core.List.{map-append}
use urchin.Ring.{
  RingBuffer, ringbuf_length, next_index, Outcome, done, panic, spinning, new, get, reserve, store,
  put,
}
use urchin.Ring.Queue.{capacity, pop, push}
use urchin.Ring.Slots.{
  slots, used, contents, Holds, length-slots, length-map-some, slots_of_pos, slots-set,
}

module _ {A : Type 0} where
  -- A fresh ring holds nothing.
  pub new-Holds : Holds {A = A} [] new
  unfolding new
  new-Holds = record {
    in_range = record {
      slots_there = length-replicate {A = Option A} ringbuf_length none;
      read_in = omega arith;
      write_in = omega arith;
    };
    filled = refl;
  }

  pub used-eq-length : {q : List A} {r : RingBuffer A} → Holds q r → used r ≡ length q
  used-eq-length {q} {r} h =
      omega (arith, length-slots r.buffer r.readidx (used r), ap length h.filled, length-map-some q)

  -- What the result of an operation is, as a ring that holds a queue beside the value returned.
  abbrev pub Returns : {B : Type 0} → B → List A → Outcome (B × RingBuffer A) → Type 0
  Returns b q (done (c, r)) = (c ≡ b) × Holds q r
  Returns b q panic = ⊥
  Returns b q spinning = ⊥

  -- Reading moves the oldest item out of the window.
  rest_filled :
      (x : A) (q : List A) {r : RingBuffer A}
      → Holds (x ∷ q) r
      → Holds q (record r { readidx = next_index r.readidx })
  rest_filled x q {r} h = record {
    in_range = omega arith;
    filled =
        ground
          (arith, used-eq-length h, h.filled, slots_of_pos r.buffer r.readidx (used r), shorter);
  }
    where
      shorter : used (record r { readidx = next_index r.readidx }) ≡ used r - 1
      shorter = omega (arith, used-eq-length h)

  head_filled :
      (x : A) (q : List A) {r : RingBuffer A}
      → Holds (x ∷ q) r
      → get_elem? r.buffer r.readidx ≡ some (some x)
  head_filled x q {r} h = ground (
    arith,
    used-eq-length h,
    h.filled,
    slots_of_pos r.buffer r.readidx (used r),
    get_elem?-eq-get_or r.buffer r.readidx none,
  )

  get_empty :
      (rounds : ℕ) (r : RingBuffer A) → r.readidx ≡ r.writeidx → get (suc rounds) r ≡ done (none, r)
  unfolding get
  get_empty rounds r e = ground arith

  pub get_filled :
      (rounds : ℕ) (r : RingBuffer A) (slot : Option A)
      → r.readidx ≢ r.writeidx
      → get_elem? r.buffer r.readidx ≡ some slot
      → get (suc rounds) r ≡ done (slot, record r { readidx = next_index r.readidx })
  unfolding get
  get_filled rounds r slot ne e = ground arith

  -- On a ring that holds a queue one round of `get` is enough, and gives the oldest item, or nothing
  -- if there is none; the ring then holds what is left.
  pub get_refines :
      (rounds : ℕ) (q : List A) {r : RingBuffer A}
      → Holds q r
      → Returns (pop q).0 (pop q).1 (get (suc rounds) r)
  unfolding pop
  get_refines rounds [] {r} h = rw (get_empty rounds r (omega (arith, used-eq-length h))) (refl, h)
  get_refines rounds (x ∷ q) {r} h =
      rw (get_filled rounds r (some x) (omega (arith, used-eq-length h)) (head_filled x q h))
        (refl, rest_filled x q h)

  -- What `put` owes the queue: the ring holds the queue after the push, or, where the queue has no
  -- room, it is still waiting.
  abbrev pub Settles : Option (List A) → Outcome (RingBuffer A) → Type 0
  Settles (some q) (done r) = Holds q r
  Settles none spinning = Unit
  Settles _ _ = ⊥

  pub reserve_room :
      (rounds : ℕ) (r : RingBuffer A)
      → r.readidx ≢ next_index r.writeidx
      → reserve (suc rounds) r ≡ done (r.writeidx, record r { writeidx = next_index r.writeidx })
  unfolding reserve
  reserve_room rounds r h = ground arith

  reserve_full :
      (rounds : ℕ) (r : RingBuffer A)
      → r.readidx ≡ next_index r.writeidx
      → reserve rounds r ≡ spinning
  unfolding reserve
  reserve_full zero r h = refl
  reserve_full (suc rounds) r h = ground (arith, reserve_full rounds r h)

  stored_filled :
      (x : A) (q : List A) {r : RingBuffer A}
      → Holds q r
      → length q < capacity
      → Holds
          (q ++ (x ∷ []))
          (record r { buffer = set r.buffer r.writeidx (some x); writeidx = next_index r.writeidx })
  stored_filled x q {r} h room = record {
    in_range = record {
      slots_there = omega (arith, length-set r.buffer r.writeidx (some x));
      read_in = omega arith;
      write_in = omega arith;
    };
    filled =
        slots buf' r.readidx (used r')
        ≡⟨ ap (slots buf' r.readidx) longer ⟩ slots buf' r.readidx (suc (used r))
        ≡⟨ appended ⟩ contents r ++ (some x ∷ [])
        ≡⟨ ap (λ l. l ++ (some x ∷ [])) h.filled ⟩ map some q ++ (some x ∷ [])
        ≡⟨ sym (map-append some q (x ∷ [])) ⟩ map some (q ++ (x ∷ [])) ∎;
  }
    where
      buf' : List (Option A)
      buf' = set r.buffer r.writeidx (some x)

      r' : RingBuffer A
      r' = record r { buffer = buf'; writeidx = next_index r.writeidx }

      longer : used r' ≡ suc (used r)
      longer = omega (arith, used-eq-length h)

      appended : slots buf' r.readidx (suc (used r)) ≡ contents r ++ (some x ∷ [])
      appended =
          slots-set r.buffer (some x) (used r) r.readidx r.writeidx (omega arith) (omega arith)
            (omega arith) (omega arith)

  -- On a ring that holds a queue `put` appends its value in one round if the queue has room, and spins
  -- however long it is run if it has none.
  pub put_refines :
      (rounds : ℕ) (x : A) (q : List A) {r : RingBuffer A}
      → Holds q r
      → Settles (push x q) (put (suc rounds) x r)
  unfolding put push store
  put_refines rounds x q {r} h = elim (Bool-cases (ltb (length q) capacity)) [
    | inl room ↦
        rw (room, reserve_room rounds r (not_full room), fits)
          (stored_filled x q h (ltb→lt _ _ room))
    | inr full ↦ rw (full, reserve_full (suc rounds) r (at_end full)) tt
  ]
    where
      not_full : ltb (length q) capacity ≡ true → r.readidx ≢ next_index r.writeidx
      not_full room = omega (arith, used-eq-length h, ltb→lt _ _ room)

      fits : ltb r.writeidx (length r.buffer) ≡ true
      fits = lt→ltb _ _ (omega arith)

      at_end : ltb (length q) capacity ≡ false → r.readidx ≡ next_index r.writeidx
      at_end full = ground (arith, used-eq-length h)
