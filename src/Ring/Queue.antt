-- ===== src/Ring/Queue.antt =====
-- What a ring promises: a first-in first-out queue that holds one item fewer than it has slots.
use urchin.Prelude.{ℕ, List, [], ◌∷◌, ◌++◌, Option, none, some, ltb, if◌then◌else◌, length}

abbrev pub capacity : ℕ
capacity = 9_999

-- The calls of a client, and what it sees of each.
pub data Op (A : Type 0) : Type 0 where
  put_op : A → Op A
  get_op : Op A

module _ {A : Type 0} where
  unfoldable pub pop : List A → Option A × List A
  pop [] = (none, [])
  pop (x ∷ q) = (some x, q)

  -- `none` where the queue has no room: the caller waits.
  unfoldable pub push : A → List A → Option (List A)
  push x q = if ltb (length q) capacity then some (q ++ (x ∷ [])) else none
