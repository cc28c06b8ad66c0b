-- ===== src/Ring/Tests.antt =====
-- Runs of the ring on concrete inputs, and instances of its theorems.
use urchin.Prelude.{
  ℕ, ◌≡◌, refl, arith, [], ◌∷◌, Option, none, some, get_or, set, replicate, length-set,
  length-replicate, ◌∙◌,
}
use urchin.Ring.{
  ringbuf_length, RingBuffer, done, panic, new, default_ring, get, reserve, store, put,
}
use urchin.Ring.Queue.{pop, push}
use urchin.Ring.Slots.{Holds}
use urchin.Ring.Refine.{new-Holds, Returns, Settles, get_refines, put_refines}
use urchin.Ring.Race.{reserved, overtaken, stored, overtaking_get_loses}

abbrev fresh : RingBuffer ℕ
unfolding new
fresh = new

-- A `put` on the derived default runs out of its empty buffer.
default_put_panics : put 1 7 (default_ring {A = ℕ}) ≡ panic
unfolding put default_ring store
default_put_panics = refl

default_get_empty : get 1 (default_ring {A = ℕ}) ≡ done (none, default_ring)
unfolding get default_ring
default_get_empty = refl

-- The ring after one `put` of 7.
abbrev one : RingBuffer ℕ
one = record { buffer = set (replicate ringbuf_length none) 0 (some 7); readidx = 0; writeidx = 1 }

one-Holds : Holds (7 ∷ []) one
one-Holds = record {
  in_range = record {
    slots_there =
        length-set {A = Option ℕ} (replicate ringbuf_length none) 0 (some 7)
        ∙ length-replicate {A = Option ℕ} _ none;
    read_in = omega arith;
    write_in = omega arith;
  };
  filled = refl;
}

second_put : put 1 7 (new {A = ℕ}) ≡ done one
unfolding put store new
second_put = refl

get_refines_example : Returns (some 7) [] (get 1 one)
unfolding pop
get_refines_example = get_refines 0 (7 ∷ []) one-Holds

put_refines_example : Settles {A = ℕ} (some (7 ∷ 8 ∷ [])) (put 1 8 one)
unfolding push
put_refines_example = put_refines 0 8 (7 ∷ []) one-Holds

overtaking_get_loses_example :
    (reserve {A = ℕ} 1 new ≡ done ((new {A = ℕ}).writeidx, reserved new))
    × (get {A = ℕ} 1 (reserved new)
        ≡ done (get_or (new {A = ℕ}).buffer (new {A = ℕ}).writeidx none, overtaken new))
    × (store {A = ℕ} (new {A = ℕ}).writeidx 7 (overtaken new) ≡ done (stored 7 new))
    × Holds {A = ℕ} [] (stored 7 new)
overtaking_get_loses_example = overtaking_get_loses 7 new-Holds
