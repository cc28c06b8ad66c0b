-- ===== src/Asynchronous/ArrayQueue/Tests.antt =====
-- A queue of lists, on which the modules of src/asynchronous are run.
use urchin.Prelude.{
  ℕ, refl, arith, List, [], ◌∷◌, ◌++◌, Option, none, some, length, ltb, if◌then◌else◌,
}
use urchin.Asynchronous.ArrayQueue.{ArrayQueue, IsBounded}

abbrev pub pop_list : List ℕ → Option (ℕ × List ℕ)
pop_list [] = none
pop_list (x ∷ q) = some (x, q)

abbrev pub list_queue : ArrayQueue (List ℕ) ℕ
list_queue = record {
  push = λ x q. if ltb (length q) 100_000 then some (q ++ (x ∷ [])) else none;
  pop = pop_list;
  len = length;
}

pub list_queue-IsBounded : IsBounded list_queue (λ q. q) 100_000
list_queue-IsBounded = record {
  counts = λ q. refl;
  pop_empty = λ q e. rw e refl;
  pop_front = λ q x xs e. (xs, rw e refl, refl);
  takes = λ q x h. (q ++ (x ∷ []), ground arith, refl);
  refuses = λ q x h. ground arith;
}
