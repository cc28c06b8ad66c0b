-- ===== src/Devices/VirtioNet/Id.antt =====
-- A driver has the number that it was made with, which is its place in `NET_IFACES`.
use urchin.Prelude.{
  ℕ, ◌/◌, ◌≡◌, arith, some, Option-cases, Bool-cases, inl, inr, ◌==◌, ◌&&◌, ◌||◌, ap, sym, ◌∙◌,
  List, true, false,
}
use urchin.Devices.Buffer.{Layout}
use urchin.Devices.Virtqueue.{VirtqueueUsedElement, get_avail_free_size}
use urchin.Devices.VirtioDevice.{VirtioDevice}
use urchin.Devices.VirtioNet.{
  VirtioNet, setup_queue, negotiate, fill_loop, new_net, new, buffer_size, has_feature,
}

module _ {S : Type 0} (dev : VirtioDevice S) (pointer : ℕ → Layout → ℕ)
    (memory : ℕ → Layout → List ℕ) (rings : ℕ → ℕ → ℕ × List ℕ × List VirtqueueUsedElement)
    (tscnum : ℕ) where
  new_net-id :
      (id : ℕ) (s : S) (n : VirtioNet S)
      → new_net dev pointer memory rings tscnum id s ≡ some n
      → n.id ≡ id
  unfolding new_net
  new_net-id id s n e = elim (Option-cases (negotiate dev s)) [
    | inl fails ↦ absurd (ground (arith, fails, e))
    | inr (agreed, a) ↦ elim (Option-cases (setup_queue dev rings 0 true agreed.1)) [
      | inl fails ↦ absurd (ground (arith, a, fails, e))
      | inr (rx, b) ↦ elim (Option-cases (setup_queue dev rings 1 false rx.1)) [
        | inl fails ↦ absurd (ground (arith, a, b, fails, e))
        | inr (tx, c) ↦ elim (Option-cases (setup_queue dev rings 2 true tx.1)) [
          | inl fails ↦ absurd (ground (arith, a, b, c, fails, e))
          | inr (cx, d) ↦
              elim (Option-cases (
                fill_loop pointer memory (get_avail_free_size rx.0 / 3) 0
                  (buffer_size (
                    has_feature agreed.0 0x008000
                    && (has_feature agreed.0 0x000080 || has_feature agreed.0 0x000400)))
                  rx.0)) [
                    | inl fails ↦ absurd (ground (arith, a, b, c, d, fails, e))
                    | inr (q, f) ↦ ground (arith, a, b, c, d, f, e)
                  ]
        ]
      ]
    ]
  ]

  pub new-id :
      (id : ℕ) (s : S) (n : VirtioNet S)
      → new dev pointer memory rings tscnum id s ≡ some (some n)
      → n.id ≡ id
  unfolding new
  new-id id s n e = elim (Bool-cases (dev.get_type s == 0x01)) [
    | inl net ↦ elim (Option-cases (new_net dev pointer memory rings tscnum id s)) [
      | inl fails ↦ absurd (ground (arith, net, fails, e))
      | inr (n', made) ↦
          let same : n' ≡ n = ground (arith, net, made, e) in
          ap (λ (x : VirtioNet S). x.id) (sym same) ∙ new_net-id id s n' made
    ]
    | inr other ↦ absurd (ground (arith, other, e))
  ]
