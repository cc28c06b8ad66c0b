-- ===== src/Devices/VirtioNet/Fill.antt =====
-- What `VirtioNet::new` gives: the driver, and the buffers that its receive queue holds.
use urchin.Prelude.{
  append-nil, append_assoc, ℕ, zero, suc, ◌+◌, ◌*◌, ◌/◌, ◌^◌, ◌≤◌, ◌≡◌, refl, arith, ap, List, [],
  ◌∷◌, ◌++◌, Option-cases, some, bit_or, Bool, true, false, not, inl, inr, ◌&&◌, ◌||◌, length,
  length-append, if◌then◌else◌,
}
use mathlib.Core.Path.{subst}
use urchin.Devices.Buffer.{Buffer, Layout}
use urchin.Devices.Virtqueue
use urchin.Devices.Virtqueue.{Virtqueue, VirtqueueUsedElement, push, get_avail_free_size}
use urchin.Devices.Virtqueue.Window.{IsSize, IsSize_range}
use urchin.Devices.Virtqueue.Push.{Holds, new-Holds, push_room, pushed_queue}
use urchin.Devices.Virtqueue.Free.{get_avail_free_size_lem}
use urchin.Devices.VirtioDevice.{VirtioDevice}
use urchin.Devices.VirtioNet.{
  VirtioNet, align, buffer_size, has_feature, random_macaddr, config_macaddr, fill_loop,
  setup_queue, negotiate, new_net, new,
}
use urchin.Devices.VirtioNet.Transmit.{fresh, new_lem}
use urchin.Devices.VirtioNet.Refill.{size_lo, size_hi}
use urchin.Net.Mac
use urchin.Net.Mac.{MacAddress}

module _ (pointer : ℕ → Layout → ℕ) (memory : ℕ → Layout → List ℕ)
    (filled : (i : ℕ) (l : Layout) → length (memory i l) ≡ l.size) where
  -- The buffers of a number of rounds, the first of which is round `i`.
  abbrev pub new_buffers : ℕ → ℕ → ℕ → List Buffer
  new_buffers size zero i = []
  new_buffers size (suc left) i =
      fresh (pointer i) (memory i) (filled i) size ∷ new_buffers size left (i + 1)

  module _ (size : ℕ) (lo : 1 ≤ size) (hi : size + 2 * align ≤ 2 ^ 64) where
    -- Where the queue has room for them, every round puts its buffer behind those that the queue holds.
    fill_loop-Holds :
        (left i popped : ℕ) (bs : List Buffer) (q : Virtqueue)
        → Holds popped bs q
        → length bs + left ≤ q.size
        → (q' : Virtqueue) × (fill_loop pointer memory left i size q ≡ some q')
          × Holds popped (bs ++ new_buffers size left i) q'
    unfolding fill_loop
    fill_loop-Holds zero i popped bs q h room = (q, refl, rw (append-nil bs) h)
    fill_loop-Holds (suc left) i popped bs q h room =
        let b = fresh (pointer i) (memory i) (filled i) size in
        let (pushed, holds, shown, described) = push_room b false popped bs q h (omega arith) in
        let (q', looped, all) =
          fill_loop-Holds left (i + 1) popped (bs ++ (b ∷ [])) (pushed_queue b false popped bs q h)
            holds (omega (arith, length-append bs (b ∷ []), room)) in
        (
          q',
          rw (fill_loop, new_lem (pointer i) (memory i) (filled i) size lo hi, pushed) looped,
          subst (λ l. Holds popped l q') (append_assoc bs (b ∷ []) (new_buffers size left (i + 1)))
              all,
        )

module _ {S : Type 0} (dev : VirtioDevice S) (pointer : ℕ → Layout → ℕ)
    (memory : ℕ → Layout → List ℕ) (rings : ℕ → ℕ → ℕ × List ℕ × List VirtqueueUsedElement)
    (tscnum : ℕ) (filled : (i : ℕ) (l : Layout) → length (memory i l) ≡ l.size) where
  -- A queue that was set up is new, on the rings that were allocated.
  setup_queue_lem :
      (idx : ℕ) (need : Bool) (s s' : S) (q : Virtqueue)
      → ((s : S) → IsSize (dev.get_queue_size s))
      → ((k size : ℕ) → (length (rings k size).1 ≡ size) × (length (rings k size).2 ≡ size))
      → setup_queue dev rings idx need s ≡ some (q, s')
      → Holds 0 [] q × (q.used_idx ≡ 0)
  unfolding setup_queue Virtqueue.new
  setup_queue_lem idx need s s' q sizes lengths made =
      elim (Option-cases (dev.select_queue idx s)) [
        | inl in_use ↦ absurd (ground (arith, in_use, made))
        | inr (s₁, selected) ↦
            let size = dev.get_queue_size s₁ in
            let r = rings idx size in
            let q₁ = Virtqueue.new r.0 r.1 r.2 size (dev.get_indirect_buf_cap s₁) need in
            let same : q₁ ≡ q = ground (arith, selected, made) in
            subst (λ x. Holds 0 [] x × (x.used_idx ≡ 0)) same
              (
                new-Holds r.0 r.1 r.2 size (dev.get_indirect_buf_cap s₁) need (sizes s₁)
                    (lengths idx size).0 (lengths idx size).1,
                refl,
              )
      ]

  all_free : (q : Virtqueue) → Holds 0 [] q → q.used_idx ≡ 0 → get_avail_free_size q ≡ q.size
  all_free q h unused = omega (
    arith,
    get_avail_free_size_lem 0 0 q
        (record {
          avail = h.pushed;
          used = unused;
          order = omega arith;
          fits = omega arith;
          small = (IsSize_range h.bounds.size_is).1;
        })
        (omega arith),
  )

  if_not : {A : Type 0} (b : Bool) (x y : A) → (if not b then x else y) ≡ (if b then y else x)
  if_not true x y = refl
  if_not false x y = refl

  abbrev driver : ℕ → ℕ → S → S → Virtqueue → Virtqueue → Virtqueue → VirtioNet S
  driver id features s₁ s₄ rxqueue txqueue cxqueue =
      let s₅ = dev.kick_queue 0 s₄ in
      record {
        id = id;
        virtio = dev.set_status (bit_or (dev.get_status s₅) 0x04) s₅;
        rxqueue = rxqueue;
        txqueue = txqueue;
        cxqueue = cxqueue;
        macaddr = Mac.new (
            if not (has_feature features 0x000020)
            then random_macaddr tscnum
            else config_macaddr dev s₁);
        flag_csum = has_feature features 0x000001;
        flag_guest_csum = has_feature features 0x000002;
        flag_mac = has_feature features 0x000020;
        flag_guest_tso4 = has_feature features 0x000080;
        flag_guest_ecn = has_feature features 0x000200;
        flag_guest_ufo = has_feature features 0x000400;
        flag_host_tso4 = has_feature features 0x000800;
        flag_host_ecn = has_feature features 0x002000;
        flag_mergeable_rxbufs = has_feature features 0x008000;
        flag_status = has_feature features 0x010000;
      }

  -- A network device with which the features are agreed, and the three queues of which can be set up, gets
  -- a driver: its receive queue holds new buffers in a third of its places, its other queues are empty, and
  -- its address is that of the device, or a generated one where the device has none.
  pub new-Holds_fresh :
      (id features : ℕ) (s s₁ s₂ s₃ s₄ : S) (rxqueue txqueue cxqueue : Virtqueue)
      → ((s : S) → IsSize (dev.get_queue_size s))
      → ((k size : ℕ) → (length (rings k size).1 ≡ size) × (length (rings k size).2 ≡ size))
      → dev.get_type s ≡ 1
      → negotiate dev s ≡ some (features, s₁)
      → setup_queue dev rings 0 true s₁ ≡ some (rxqueue, s₂)
      → setup_queue dev rings 1 false s₂ ≡ some (txqueue, s₃)
      → setup_queue dev rings 2 true s₃ ≡ some (cxqueue, s₄)
      → (n : VirtioNet S) × (new dev pointer memory rings tscnum id s ≡ some (some n))
        × (n.id ≡ id)
        × Holds 0
            (new_buffers pointer memory filled
              (buffer_size (n.flag_mergeable_rxbufs && (n.flag_guest_tso4 || n.flag_guest_ufo)))
              (rxqueue.size / 3)
              0)
            n.rxqueue
        × Holds 0 [] n.txqueue
        × Holds 0 [] n.cxqueue
        × (n.macaddr
            ≡ Mac.new (
                if has_feature features 0x000020
                then config_macaddr dev s₁
                else random_macaddr tscnum))
  unfolding new new_net
  new-Holds_fresh id features s s₁ s₂ s₃ s₄ rxqueue txqueue cxqueue sizes lengths is_net agreed rx
        tx cx =
      let (rx_new, unused) = setup_queue_lem 0 true s₁ s₂ rxqueue sizes lengths rx in
      let (tx_new, tx_unused) = setup_queue_lem 1 false s₂ s₃ txqueue sizes lengths tx in
      let (cx_new, cx_unused) = setup_queue_lem 2 true s₃ s₄ cxqueue sizes lengths cx in
      let is_large =
        has_feature features 0x008000
        && (has_feature features 0x000080 || has_feature features 0x000400) in
      let (q, looped, holds) =
        fill_loop-Holds pointer memory filled (buffer_size is_large) (size_lo is_large)
          (size_hi is_large) (rxqueue.size / 3) 0 0 [] rxqueue rx_new (omega arith) in
      (
        driver id features s₁ s₄ q txqueue cxqueue,
        rw (is_net, agreed, rx, tx, cx, all_free rxqueue rx_new unused, looped) refl,
        refl,
        holds,
        tx_new,
        cx_new,
        ap Mac.new (
            if_not (has_feature features 0x000020) (random_macaddr tscnum) (config_macaddr dev s₁)),
      )
