-- ===== src/Devices/VirtioNet/Refill.antt =====
-- What the loop that fills the receive queue does to the buffers of the queue.
use native.Mathlib.Nat.{mod-lt, add-mod_right}
use urchin.Prelude.{
  ℕ, zero, suc, ◌+◌, ◌-◌, ◌*◌, ◌%◌, ◌^◌, ◌≤◌, ◌<◌, ◌≡◌, refl, arith, ap, sym, ◌∙◌, List, none, some,
  Bool, true, false, length, get_or, get_or-set_self, get_or-set_ne, lt→ltb, ltb, sub_u16, ◌&&◌,
  ◌||◌,
}
use urchin.Devices.Buffer
use urchin.Devices.Buffer.{Buffer, Layout, ok}
use urchin.Devices.Virtqueue.{Virtqueue, VirtqueueUsedElement, push, get_avail_free_size}
use urchin.Devices.Virtqueue.Window.{IsSize_range, mod-ne}
use urchin.Devices.Virtqueue.Push.{Holds}
use urchin.Devices.Virtqueue.Overwrite.{IsNext, IsPushed, push_lem}
use urchin.Devices.Virtqueue.Free.{Counts, get_avail_free_size_lem}
use urchin.Devices.VirtioDevice.{VirtioDevice}
use urchin.Devices.VirtioNet.{VirtioNet, align, buffer_size, fill_loop, fill_rx_queue}
use urchin.Devices.VirtioNet.Transmit.{fresh, new_lem}

module _ (pointer : ℕ → Layout → ℕ) (memory : ℕ → Layout → List ℕ)
    (filled : (i : ℕ) (l : Layout) → length (memory i l) ≡ l.size) (size : ℕ) (lo : 1 ≤ size)
    (hi : size + 2 * align ≤ 2 ^ 64) where
  -- The new buffer of a round.
  abbrev pub new_buffer : ℕ → Buffer
  new_buffer i = fresh (pointer i) (memory i) (filled i) size

  -- The queue after rounds from the counter `j` on: a place is that of the last round for it.
  record IsRefilled (left i j : ℕ) (q q' : Virtqueue) : Type 0 where
    pub size_same : q'.size ≡ q.size
    pub taken :
        (t : ℕ)
        → t < left
        → left ≤ t + q.size
        → get_or q'.buffers ((j + t) % q.size) none ≡ some (new_buffer (i + t))
    pub left_alone :
        (m : ℕ)
        → m < j
        → j + left ≤ m + q.size
        → get_or q'.buffers (m % q.size) none ≡ get_or q.buffers (m % q.size) none

  round :
      (left i : ℕ) (q q₁ : Virtqueue)
      → Buffer.new (pointer i) (memory i) size align ≡ ok (new_buffer i)
      → push (new_buffer i) false q ≡ some q₁
      → fill_loop pointer memory (suc left) i size q ≡ fill_loop pointer memory left (i + 1) size q₁
  unfolding fill_loop
  round left i q q₁ made pushed = rw (fill_loop, made, pushed) refl

  module _ (left i j : ℕ) (q q₁ q₂ : Virtqueue) (h : IsNext j q)
      (p : IsPushed j (new_buffer i) q q₁) (r : IsRefilled left (i + 1) (suc j) q₁ q₂) where
    later_left_alone :
        (m : ℕ)
        → m < suc j
        → j + suc left ≤ m + q.size
        → get_or q₂.buffers (m % q.size) none ≡ get_or q₁.buffers (m % q.size) none
    later_left_alone m lt near =
        ap (λ s. get_or q₂.buffers (m % s) none) (sym p.size)
        ∙ r.left_alone m lt (omega (arith, p.size, near))
        ∙ ap (λ s. get_or q₁.buffers (m % s) none) p.size

    taken_step :
        (t : ℕ)
        → t < suc left
        → suc left ≤ t + q.size
        → get_or q₂.buffers ((j + t) % q.size) none ≡ some (new_buffer (i + t))
    taken_step zero lt near =
        let here : j + 0 ≡ j = omega arith in
        let first : i + 0 ≡ i = omega arith in
        ap (λ k. get_or q₂.buffers (k % q.size) none) here
        ∙ later_left_alone j (omega arith) (omega (arith, near))
        ∙ ap (λ l. get_or l (j % q.size) none) p.buffers
        ∙ get_or-set_self q.buffers (j % q.size) (some (new_buffer i)) none
            (omega (arith, h.bounds.slots, mod-lt j (IsSize_range h.bounds.size_is).0))
        ∙ ap (λ k. some (new_buffer k)) (sym first)
    taken_step (suc t) lt near =
        let place : j + suc t ≡ suc j + t = omega arith in
        let round_number : (i + 1) + t ≡ i + suc t = omega arith in
        ap (λ k. get_or q₂.buffers (k % q.size) none) place
        ∙ ap (λ s. get_or q₂.buffers ((suc j + t) % s) none) (sym p.size)
        ∙ r.taken t (omega arith) (omega (arith, near, p.size))
        ∙ ap (λ k. some (new_buffer k)) round_number

    round-IsRefilled : IsRefilled (suc left) i j q q₂
    round-IsRefilled = record {
      size_same = r.size_same ∙ p.size;
      taken = taken_step;
      left_alone = λ m lt near.
          later_left_alone m (omega arith) near
          ∙ ap (λ l. get_or l (m % q.size) none) p.buffers
          ∙ get_or-set_ne q.buffers (j % q.size) (m % q.size) (some (new_buffer i)) none
              (mod-ne m j q.size lt (omega (arith, near)));
    }

  fill_loop_lem :
      (left i j : ℕ) (q : Virtqueue)
      → IsNext j q
      → (q' : Virtqueue) × (fill_loop pointer memory left i size q ≡ some q')
        × IsRefilled left i j q q'
  unfolding fill_loop
  fill_loop_lem zero i j q h = (
    q,
    refl,
    record {
      size_same = refl;
      taken = λ t lt near. absurd (omega arith);
      left_alone = λ m lt near. refl;
    },
  )
  fill_loop_lem (suc left) i j q h =
      let (q₁, pushed, p) = push_lem (new_buffer i) false j q h in
      let (q₂, looped, r) = fill_loop_lem left (i + 1) (suc j) q₁ p.after in
      (
        q₂,
        round left i q q₁ (new_lem (pointer i) (memory i) (filled i) size lo hi) pushed ∙ looped,
        round-IsRefilled left i j q q₁ q₂ h p r,
      )

pub size_lo : (is_large : Bool) → 1 ≤ buffer_size is_large
size_lo true = omega arith
size_lo false = omega arith

pub size_hi : (is_large : Bool) → buffer_size is_large + 2 * align ≤ 2 ^ 64
size_hi true = omega arith
size_hi false = omega arith

module _ {S : Type 0} (dev : VirtioDevice S) (pointer : ℕ → Layout → ℕ)
    (memory : ℕ → Layout → List ℕ) (rings : ℕ → ℕ → ℕ × List ℕ × List VirtqueueUsedElement)
    (tscnum : ℕ) (filled : (i : ℕ) (l : Layout) → length (memory i l) ≡ l.size) where
  abbrev large : VirtioNet S → Bool
  large n = n.flag_mergeable_rxbufs && (n.flag_guest_tso4 || n.flag_guest_ufo)

  refill_lem :
      (r : ℕ) (n : VirtioNet S) (q : Virtqueue)
      → sub_u16 (get_avail_free_size n.rxqueue) 1 ≡ r
      → 32 < r
      → fill_loop pointer memory r 0 (buffer_size (large n)) n.rxqueue ≡ some q
      → fill_rx_queue dev pointer memory rings tscnum n
        ≡ some (record n { rxqueue = q; virtio = dev.kick_queue 0 n.virtio })
  unfolding fill_rx_queue
  refill_lem r n q free many looped =
      let test : ltb 32 r ≡ true = lt→ltb 32 r many in rw (free, test, looped) refl

  -- The refill counts the descriptors that the device has finished as free, although their buffers have not
  -- been popped. Where the device has finished two or more of the buffers that the receive queue holds,
  -- its counters have not wrapped, and the refill is of more than 32, it puts a new buffer in the place of
  -- the oldest of them, and the frame that the device has received in that one is lost.
  pub fill_rx_queue_overwrites :
      (popped finished : ℕ) (bs : List Buffer) (n : VirtioNet S)
      → Holds popped bs n.rxqueue
      → popped + length bs < 2 ^ 16
      → n.rxqueue.used_idx ≡ popped + finished
      → 2 ≤ finished
      → finished ≤ length bs
      → length bs ≤ n.rxqueue.size
      → 33 + length bs < n.rxqueue.size + finished
      → (n' : VirtioNet S) × (i : ℕ) × (fill_rx_queue dev pointer memory rings tscnum n ≡ some n')
        × (get_or n'.rxqueue.buffers (popped % n.rxqueue.size) none
            ≡ some (fresh (pointer i) (memory i) (filled i) (buffer_size (large n))))
  fill_rx_queue_overwrites popped finished bs n h small used two some_held held many =
      let q = n.rxqueue in
      let size = buffer_size (large n) in
      let r = q.size - (length bs - finished) - 1 in
      let next : IsNext (popped + length bs) q = record { bounds = h.bounds; free = h.free } in
      let (q', looped, refilled) =
        fill_loop_lem pointer memory filled size (size_lo (large n)) (size_hi (large n)) r 0
          (popped + length bs) q next in
      (
        record n { rxqueue = q'; virtio = dev.kick_queue 0 n.virtio },
        0 + (q.size - length bs),
        refill_lem r n q' free (omega (arith, many)) looped,
        ap (λ k. get_or q'.buffers k none) (sym oldest)
            ∙ refilled.taken (q.size - length bs) (omega (arith, many)) (omega (arith, two, held)),
      )
    where
      range : (1 ≤ n.rxqueue.size) × (n.rxqueue.size ≤ 2 ^ 15)
      range = IsSize_range h.bounds.size_is

      counts : Counts (popped + length bs) (popped + finished) n.rxqueue
      counts = record {
        avail = h.pushed;
        used = used ∙ omega arith;
        order = omega arith;
        fits = omega arith;
        small = range.1;
      }

      free : sub_u16 (get_avail_free_size n.rxqueue) 1 ≡ n.rxqueue.size - (length bs - finished) - 1
      free = omega (
        arith,
        get_avail_free_size_lem (popped + length bs) (popped + finished) n.rxqueue counts
            (omega arith),
        range,
        many,
      )

      oldest :
          (popped + length bs + (n.rxqueue.size - length bs)) % n.rxqueue.size
          ≡ popped % n.rxqueue.size
      oldest =
          let whole : popped + length bs + (n.rxqueue.size - length bs) ≡ popped + n.rxqueue.size =
            omega arith in
          ap (λ x. x % n.rxqueue.size) whole ∙ add-mod_right popped n.rxqueue.size
