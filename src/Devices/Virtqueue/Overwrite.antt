-- ===== src/Devices/Virtqueue/Overwrite.antt =====
-- A push on any queue, whether it has room or not.
use native.Mathlib.Nat.{mod-lt, mod-add-mod}
use urchin.Prelude.{
  ℕ, suc, ◌+◌, ◌%◌, ◌<◌, ◌≡◌, refl, arith, ap, ◌∙◌, some, Bool, true, length, set, length-set,
  lt→ltb, ltb, u16,
}
use urchin.Devices.Buffer.{Buffer}
use urchin.Devices.Virtqueue.{Virtqueue, push, mask_index, descriptor_of}
use urchin.Devices.Virtqueue.Window.{IsSize_range, mask_index_lem}
use urchin.Devices.Virtqueue.Push.{InBounds}

-- The next push takes the place of the counter `j`.
pub record IsNext (j : ℕ) (q : Virtqueue) : Type 0 where
  pub bounds : InBounds q
  pub free : q.free_head ≡ j % q.size

-- A push puts the buffer in that place, whatever is there.
pub record IsPushed (j : ℕ) (b : Buffer) (q q' : Virtqueue) : Type 0 where
  pub after : IsNext (suc j) q'
  pub size : q'.size ≡ q.size
  pub buffers : q'.buffers ≡ set q.buffers (j % q.size) (some b)

pub push_lem :
    (b : Buffer) (is_guest : Bool) (j : ℕ) (q : Virtqueue)
    → IsNext j q
    → (q' : Virtqueue) × (push b is_guest q ≡ some q') × IsPushed j b q q'
unfolding push
push_lem b is_guest j q h = (
  record q {
    avail_ring = set q.avail_ring avail_place place;
    avail_idx = u16 (q.avail_idx + 1);
    descriptor = set q.descriptor place (descriptor_of b is_guest (suc j % q.size));
    buffers = set q.buffers place (some b);
    free_head = suc j % q.size;
  },
  rw (h.free, next_place, avail_is, index, in_avail, in_descriptor, in_buffers) refl,
  record {
    after = record {
      bounds = record {
        size_is = h.bounds.size_is;
        descriptors = length-set q.descriptor place _ ∙ h.bounds.descriptors;
        avail = length-set q.avail_ring avail_place place ∙ h.bounds.avail;
        used = h.bounds.used;
        slots = length-set q.buffers place (some b) ∙ h.bounds.slots;
      };
      free = refl;
    };
    size = refl;
    buffers = refl;
  },
)
  where
    place : ℕ
    place = j % q.size

    avail_place : ℕ
    avail_place = q.avail_idx % q.size

    place-lt : place < q.size
    place-lt = mod-lt j (IsSize_range h.bounds.size_is).0

    avail-lt : avail_place < q.size
    avail-lt = mod-lt q.avail_idx (IsSize_range h.bounds.size_is).0

    avail_is : mask_index q.avail_idx q.size ≡ avail_place
    avail_is = mask_index_lem h.bounds.size_is q.avail_idx

    index : u16 place ≡ place
    index = omega (arith, place-lt, IsSize_range h.bounds.size_is)

    next_place : mask_index (u16 (u16 place + 1)) q.size ≡ suc j % q.size
    next_place =
        mask_index_lem h.bounds.size_is (u16 (u16 place + 1))
        ∙ ap (λ x. x % q.size) (omega (arith, place-lt, IsSize_range h.bounds.size_is))
        ∙ mod-add-mod j q.size 1
        ∙ ap (λ x. x % q.size) (omega arith)

    in_avail : ltb avail_place (length q.avail_ring) ≡ true
    in_avail = lt→ltb _ _ (omega (arith, avail-lt, h.bounds.avail))

    in_descriptor : ltb place (length q.descriptor) ≡ true
    in_descriptor = lt→ltb _ _ (omega (arith, place-lt, h.bounds.descriptors))

    in_buffers : ltb place (length q.buffers) ≡ true
    in_buffers = lt→ltb _ _ (omega (arith, place-lt, h.bounds.slots))
