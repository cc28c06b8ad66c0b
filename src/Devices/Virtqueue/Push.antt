-- ===== src/Devices/Virtqueue/Push.antt =====
-- `push`: a queue with room takes the buffer in; a full one takes it over another.
use native.Mathlib.Nat.{mod-lt, mod-add-mod, add-mod_right}
use urchin.Prelude.{
  ℕ, suc, ◌+◌, ◌%◌, ◌^◌, ◌<◌, ◌≡◌, refl, sym, ap, ◌∙◌, arith, List, [], ◌∷◌, ◌++◌, Option, none,
  some, Bool, length, get_or, set, length-set, get_or-set_self, length-append, lt→ltb, ltb, u16,
  length-replicate, true,
}
use urchin.Devices.Buffer.{Buffer}
use urchin.Devices.Virtqueue.{Virtqueue, VirtqueueUsedElement, new, push, mask_index, descriptor_of}
use urchin.Devices.Virtqueue.Window.{
  AreHeld, AreHeld-set, AreHeld-append, IsSize, IsSize_range, mask_index_lem, u16-mod,
}

-- The rings have the size of the queue.
pub record InBounds (q : Virtqueue) : Type 0 where
  pub size_is : IsSize q.size
  pub descriptors : length q.descriptor ≡ q.size
  pub avail : length q.avail_ring ≡ q.size
  pub used : length q.used_ring ≡ q.size
  pub slots : length q.buffers ≡ q.size

-- After `popped` buffers have come back, the queue holds the buffers `bs`, oldest first, each in the
-- place of its count.
pub record Holds (popped : ℕ) (bs : List Buffer) (q : Virtqueue) : Type 0 where
  pub bounds : InBounds q
  pub free : q.free_head ≡ (popped + length bs) % q.size
  pub pushed : q.avail_idx ≡ (popped + length bs) % 2 ^ 16
  pub last : q.last_used_idx ≡ popped % 2 ^ 16
  pub held : AreHeld q.buffers q.size popped bs

-- A new queue whose size is a power of two, on rings of that size, holds nothing.
pub new-Holds :
    (base_addr : ℕ) (old_avail : List ℕ) (old_used : List VirtqueueUsedElement) (size : ℕ)
    (is_indirect used_interrupt : Bool)
    → IsSize size
    → length old_avail ≡ size
    → length old_used ≡ size
    → Holds 0 [] (new base_addr old_avail old_used size is_indirect used_interrupt)
unfolding new
new-Holds base_addr old_avail old_used size is_indirect used_interrupt s ha hu = record {
  bounds = record {
    size_is = s;
    descriptors = length-replicate size _;
    avail = ha;
    used = hu;
    slots = length-replicate {A = Option Buffer} size none;
  };
  free = omega (arith, IsSize_range s);
  pushed = refl;
  last = refl;
  held = tt;
}

module _ (buffer : Buffer) (is_guest : Bool) (popped : ℕ) (bs : List Buffer) (q : Virtqueue)
    (h : Holds popped bs q) where
  abbrev place : ℕ
  place = (popped + length bs) % q.size

  place-lt : place < q.size
  place-lt = mod-lt (popped + length bs) (IsSize_range h.bounds.size_is).0

  place-small : place < 2 ^ 15
  place-small = omega (arith, place-lt, IsSize_range h.bounds.size_is)

  avail_place : mask_index q.avail_idx q.size ≡ place
  avail_place =
      mask_index_lem h.bounds.size_is q.avail_idx
      ∙ ap (λ x. x % q.size) h.pushed
      ∙ u16-mod h.bounds.size_is (popped + length bs)

  next_place : mask_index (u16 (u16 place + 1)) q.size ≡ (popped + suc (length bs)) % q.size
  next_place =
      mask_index_lem h.bounds.size_is (u16 (u16 place + 1))
      ∙ ap (λ x. x % q.size) (omega (arith, place-small))
      ∙ mod-add-mod (popped + length bs) q.size 1
      ∙ ap (λ x. x % q.size) (omega arith)

  -- The queue after the push, whether it had room or not.
  abbrev pub pushed_queue : Virtqueue
  pushed_queue = record q {
    avail_ring = set q.avail_ring place place;
    avail_idx = u16 (q.avail_idx + 1);
    descriptor =
        set q.descriptor place
          (descriptor_of buffer is_guest ((popped + suc (length bs)) % q.size));
    buffers = set q.buffers place (some buffer);
    free_head = (popped + suc (length bs)) % q.size;
  }

  pub push_returns : push buffer is_guest q ≡ some pushed_queue
  unfolding push
  push_returns =
      rw (h.free, avail_place, next_place, index, in_avail, in_descriptor, in_buffers) refl
    where
      index : u16 place ≡ place
      index = omega (arith, place-small)

      in_avail : ltb place (length q.avail_ring) ≡ true
      in_avail = lt→ltb _ _ (omega (arith, place-lt))

      in_descriptor : ltb place (length q.descriptor) ≡ true
      in_descriptor = lt→ltb _ _ (omega (arith, place-lt))

      in_buffers : ltb place (length q.buffers) ≡ true
      in_buffers = lt→ltb _ _ (omega (arith, place-lt))

  pushed-InBounds : InBounds pushed_queue
  pushed-InBounds = record {
    size_is = h.bounds.size_is;
    descriptors = length-set q.descriptor place _ ∙ h.bounds.descriptors;
    avail = length-set q.avail_ring place place ∙ h.bounds.avail;
    used = h.bounds.used;
    slots = length-set q.buffers place (some buffer) ∙ h.bounds.slots;
  }

  -- On a queue with room for it a pushed buffer is held behind the others, and the device is shown its
  -- descriptor, with the address and length of the buffer.
  pub push_room :
      length bs < q.size
      → (push buffer is_guest q ≡ some pushed_queue)
        × Holds popped (bs ++ (buffer ∷ [])) pushed_queue
        × (get_or pushed_queue.avail_ring place q.size ≡ place)
        × (get_or pushed_queue.descriptor place (descriptor_of buffer is_guest 0)
            ≡ descriptor_of buffer is_guest ((popped + suc (length bs)) % q.size))
  push_room room = (
    push_returns,
    record {
      bounds = pushed-InBounds;
      free = ap (λ n. (popped + n) % q.size) longer;
      pushed = count;
      last = h.last;
      held =
          AreHeld-append (set q.buffers place (some buffer)) q.size popped bs buffer
            (AreHeld-set q.buffers q.size popped (popped + length bs) bs (some buffer) (omega arith)
              (omega arith) h.held)
            (get_or-set_self q.buffers place (some buffer) none (omega (arith, place-lt)));
    },
    get_or-set_self q.avail_ring place place q.size (omega (arith, place-lt)),
    get_or-set_self q.descriptor place _ _ (omega (arith, place-lt)),
  )
    where
      longer : suc (length bs) ≡ length (bs ++ (buffer ∷ []))
      longer = omega (arith, length-append bs (buffer ∷ []))

      count : u16 (q.avail_idx + 1) ≡ (popped + length (bs ++ (buffer ∷ []))) % 2 ^ 16
      count = omega (arith, length-append bs (buffer ∷ []))

  -- A full queue accepts a pushed buffer all the same, and its slot is that of the oldest buffer held,
  -- which the device still has.
  pub push_full :
      length bs ≡ q.size
      → (push buffer is_guest q ≡ some pushed_queue)
        × (get_or pushed_queue.buffers (popped % q.size) none ≡ some buffer)
  push_full full = (
    push_returns,
    ap (λ i. get_or pushed_queue.buffers i none) (sym oldest)
        ∙ get_or-set_self q.buffers place (some buffer) none (omega (arith, place-lt)),
  )
    where
      oldest : place ≡ popped % q.size
      oldest = rw full (add-mod_right popped q.size)
