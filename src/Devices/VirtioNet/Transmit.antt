-- ===== src/Devices/VirtioNet/Transmit.antt =====
-- A buffer for transmission has room for the frame.
use mathlib.Core.Path.{subst}
use urchin.Prelude.{
  append-nil, zero, ap₂, suc, get_or, ◌%◌, ℕ, ◌+◌, ◌-◌, ◌*◌, ◌^◌, ◌≤◌, ◌<◌, ◌≡◌, refl, arith, ap,
  ◌∙◌, List, [], ◌∷◌, ◌++◌, some, true, leb, length, take, drop, length-drop, length-append,
  replicate, usize,
}
use urchin.Devices.Buffer
use urchin.Devices.Buffer.{
  Layout, Buffer, ok, actual_size, from_size_align, of_layout, slide_position, slice, slice_len,
}
use urchin.Devices.Buffer.Laws.{actual_size_lem, slice-eq-drop}
use urchin.Net.Frame.{overlay}
use urchin.Net.Frame.Laws.{overlay_at, bind_some}
use urchin.Devices.VirtioDevice.{VirtioDevice}
use urchin.Devices.Virtqueue.{Virtqueue, descriptor_of}
use urchin.Devices.Virtqueue.Push.{Holds, pushed_queue, push_room}
use urchin.Devices.VirtioNet.{VirtioNet, xmit, align, pre_xmit, with_header, with_slice}

drop_all : (n : ℕ) (xs : List ℕ) → n ≡ length xs → drop n xs ≡ []
drop_all zero [] e = refl
drop_all zero (x ∷ xs) e = absurd (omega arith)
drop_all (suc n) [] e = refl
drop_all (suc n) (x ∷ xs) e = drop_all n xs (omega arith)

-- A buffer with a header of zeros, and the frame behind it.
record IsHeaded (size : ℕ) (b : Buffer) : Type 0 where
  size_is : Buffer.get_size b ≡ size + 12
  position : b.position ≡ 12
  header : take 12 b.memory ≡ replicate 12 0
  slice_is : slice b ≡ drop 12 b.memory
  enough : 12 ≤ length b.memory

-- The bytes once a frame was written into the slice.
with_slice-memory :
    (size : ℕ) (b : Buffer) (frame : List ℕ)
    → IsHeaded size b
    → length frame ≡ length (slice b)
    → (with_slice b frame).memory ≡ replicate 12 0 ++ frame
with_slice-memory size b frame h long =
    let nothing : drop (12 + length frame) b.memory ≡ [] =
      drop_all (12 + length frame) b.memory
        (omega (arith, long, ap length h.slice_is, length-drop 12 b.memory, h.enough)) in
    ap (λ p. take p b.memory ++ (frame ++ drop (p + length frame) b.memory)) h.position
    ∙ ap₂ (λ l r. l ++ (frame ++ r)) h.header nothing
    ∙ ap (λ r. replicate 12 0 ++ r) (append-nil frame)

module _ (pointer : Layout → ℕ) (memory : Layout → List ℕ)
    (filled : (l : Layout) → length (memory l) ≡ l.size) where
  abbrev pub layout : ℕ → Layout
  layout size = record { size = actual_size size align; align = align }

  abbrev pub fresh : ℕ → Buffer
  fresh size = record {
    buffer_ptr = pointer (layout size);
    size = size;
    position = 0;
    layout = layout size;
    memory = memory (layout size);
  }

  pub new_lem :
      (size : ℕ)
      → 1 ≤ size
      → size + 2 * align ≤ 2 ^ 64
      → Buffer.new pointer memory size align ≡ ok (fresh size)
  unfolding Buffer.new of_layout from_size_align
  new_lem size lo hi = rw fits refl
    where
      fits : leb (actual_size size align) (2 ^ 64 - 1 - (align - 1)) ≡ true
      fits =
          let a = actual_size_lem size align lo (omega arith) (omega arith) in ground (arith, a.1)

  module _ (size : ℕ) (small : size + 12 + 2 * align ≤ 2 ^ 64) where
    abbrev total : ℕ
    total = size + 12

    abbrev bytes : List ℕ
    bytes = memory (layout total)

    enough : total ≤ length bytes
    enough =
        let a = actual_size_lem total align (omega arith) (omega arith) (omega arith) in
        omega (arith, filled (layout total), a.0)

    fits : length bytes < 2 ^ 64
    fits =
        let a = actual_size_lem total align (omega arith) (omega arith) (omega arith) in
        omega (arith, filled (layout total), a.1)

    abbrev headed : List ℕ
    headed = replicate 12 0 ++ drop 12 bytes

    length-headed : length headed ≡ length bytes
    length-headed =
        omega (arith, length-append (replicate 12 0) (drop 12 bytes), length-drop 12 bytes, enough)

    abbrev sent : Buffer
    sent = slide_position (with_slice (fresh total) headed) 12

    unused : drop (0 + length headed) bytes ≡ []
    unused =
        let e : 0 + length headed ≡ length bytes = omega (arith, length-headed) in
        rw e (drop_all (length bytes) bytes refl)

    sent_memory : sent.memory ≡ headed
    unfolding slide_position
    sent_memory = ap (λ l. headed ++ l) unused ∙ append-nil headed

    whole : slice (fresh total) ≡ bytes
    whole =
        slice-eq-drop (fresh total) (filled (layout total))
          (omega (arith, fits, filled (layout total))) (omega arith)

    pre_xmit_returns : pre_xmit pointer memory size ≡ some sent
    unfolding pre_xmit with_header slide_position
    pre_xmit_returns =
        ap (λ n. with_header (Buffer.new pointer memory n align)) wraps_not
        ∙ ap with_header (new_lem total (omega arith) (omega arith))
        ∙ bind_some _
            (ap (overlay (replicate 12 0)) whole
              ∙ overlay_at 12 (replicate 12 0) bytes refl (omega (arith, enough)))
            refl
      where
        wraps_not : usize (size + 12) ≡ total
        wraps_not = omega arith

    sent_length : length sent.memory ≡ length bytes
    sent_length = ap length sent_memory ∙ length-headed

    -- The slice is all that is behind the header.
    sent_slice : slice sent ≡ drop 12 sent.memory
    unfolding slide_position
    sent_slice =
        let in_layout = sent_length ∙ filled (layout total) in
        slice-eq-drop sent in_layout (omega (arith, in_layout, sent_length, fits))
          (omega (arith, in_layout, sent_length, enough))

    -- A frame of `size` bytes gets a buffer whose slice has room for it, behind a virtio-net header of
    -- twelve zeros, and the device is told of the header and the frame and no more.
    pub pre_xmit_lem :
        (b : Buffer) × (pre_xmit pointer memory size ≡ some b)
        × (size ≤ length (slice b))
        × (take 12 b.memory ≡ replicate 12 0)
        × (b.position ≡ 12)
        × (Buffer.get_size b ≡ size + 12)
    unfolding slide_position Buffer.get_size
    pre_xmit_lem = (
      sent,
      pre_xmit_returns,
      omega (arith, ap length sent_slice, length-drop 12 sent.memory, sent_length, enough),
      refl,
      refl,
      refl,
    )

    headed_lem : (b : Buffer) → pre_xmit pointer memory size ≡ some b → IsHeaded size b
    unfolding slide_position Buffer.get_size
    headed_lem b returned =
        let same : sent ≡ b = cc (returned, pre_xmit_returns) in
        subst (IsHeaded size) same (record {
          size_is = refl;
          position = refl;
          header = refl;
          slice_is = sent_slice;
          enough = omega (arith, sent_length, enough);
        })

    module _ {S : Type 0} (dev : VirtioDevice S) (n : VirtioNet S) (popped : ℕ) (bs : List Buffer)
        (h : Holds popped bs n.txqueue) where
      -- On a transmit queue with room, a frame that was written into the slice that `pre_xmit` returned is sent:
      -- `xmit` puts its buffer behind those that are held, tells the device, and shows it the descriptor of
      -- the buffer, which is not to be written and has twelve bytes more than the frame was to have. What
      -- stands there is a virtio-net header of zeros and then the frame.
      pub transmitted :
          (b : Buffer) (frame : List ℕ)
          → pre_xmit pointer memory size ≡ some b
          → length frame ≡ length (slice b)
          → length bs < n.txqueue.size
          → let b' = with_slice b frame in
            let place = (popped + length bs) % n.txqueue.size in
            (q : Virtqueue) × (xmit dev b' n
              ≡ some (record n { txqueue = q; virtio = dev.kick_queue 1 n.virtio }))
            × Holds popped (bs ++ (b' ∷ [])) q
            × (get_or q.avail_ring place n.txqueue.size ≡ place)
            × (get_or q.descriptor place (descriptor_of b' true 0)
                ≡ descriptor_of b' true ((popped + suc (length bs)) % n.txqueue.size))
            × (Buffer.get_size b' ≡ size + 12)
            × (b'.memory ≡ replicate 12 0 ++ frame)
      unfolding xmit Buffer.get_size
      transmitted b frame returned long room =
          let b' = with_slice b frame in
          let (pushed, holds, shown, described) = push_room b' true popped bs n.txqueue h room in
          (
            pushed_queue b' true popped bs n.txqueue h,
            bind_some _ pushed refl,
            holds,
            shown,
            described,
            (headed_lem b returned).size_is,
            with_slice-memory size b frame (headed_lem b returned) long,
          )
