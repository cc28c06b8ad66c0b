-- ===== src/Asynchronous/ArrayQueue.antt =====
-- `ArrayQueue` of the crossbeam_queue crate, which src/asynchronous uses: its operations, and what its
-- documentation promises of them.
pub mod Tests
use urchin.Prelude.{ℕ, ◌≤◌, ◌<◌, ◌≡◌, List, [], ◌∷◌, ◌++◌, Option, none, some, length}

-- `push` is `none` where it returns `PushError`.
pub record ArrayQueue (Q : Type 0) (A : Type 0) : Type 0 where
  pub push : A → Q → Option Q
  pub pop : Q → Option (A × Q)
  pub len : Q → ℕ

-- The queue gives back the items in the order they came, and takes one where it holds fewer than
-- `capacity`.
pub record IsBounded {Q : Type 0} {A : Type 0} (queue : ArrayQueue Q A) (items : Q → List A)
    (capacity : ℕ) : Type 0 where
  pub counts : (q : Q) → queue.len q ≡ length (items q)
  pub pop_empty : (q : Q) → items q ≡ [] → queue.pop q ≡ none
  pub pop_front :
      (q : Q) (x : A) (xs : List A)
      → items q ≡ x ∷ xs
      → (q' : Q) × (queue.pop q ≡ some (x, q')) × (items q' ≡ xs)
  pub takes :
      (q : Q) (x : A)
      → length (items q) < capacity
      → (q' : Q) × (queue.push x q ≡ some q') × (items q' ≡ items q ++ (x ∷ []))
  pub refuses : (q : Q) (x : A) → capacity ≤ length (items q) → queue.push x q ≡ none
