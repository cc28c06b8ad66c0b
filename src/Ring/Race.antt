-- ===== src/Ring/Race.antt =====
-- A `get` that runs between the two halves of a `put`, after it has reserved its slot and before it
-- stores into it. The ring is meant for one consumer and several producers.
use urchin.Prelude.{
  ℕ, ◌<◌, ◌≡◌, arith, [], none, some, length, get_or, set, length-set, get_elem?,
  get_elem?-eq-get_or, lt→ltb,
}
use urchin.Ring.{RingBuffer, Outcome, done, get, reserve, store, next_index}
use urchin.Ring.Slots.{Holds, InRange}
use urchin.Ring.Refine.{used-eq-length, reserve_room, get_filled}

module _ {A : Type 0} where
  abbrev pub reserved : RingBuffer A → RingBuffer A
  reserved r = record r { writeidx = next_index r.writeidx }

  abbrev pub overtaken : RingBuffer A → RingBuffer A
  overtaken r = record r { readidx = next_index r.readidx; writeidx = next_index r.writeidx }

  abbrev pub stored : A → RingBuffer A → RingBuffer A
  stored x r = record (overtaken r) { buffer = set r.buffer r.writeidx (some x) }

  store_in :
      (x : A) (wix : ℕ) (r : RingBuffer A)
      → wix < length r.buffer
      → store wix x r ≡ done (record r { buffer = set r.buffer wix (some x) })
  unfolding store
  store_in x wix r h = rw (lt→ltb _ _ h)

  -- On an empty ring a `get` that overtakes a `put` returns what the slot held before, and after the
  -- `put` has stored its value the ring holds nothing: the value is lost.
  pub overtaking_get_loses :
      (x : A) {r : RingBuffer A}
      → Holds [] r
      → (reserve 1 r ≡ done (r.writeidx, reserved r))
        × (get 1 (reserved r) ≡ done (get_or r.buffer r.writeidx none, overtaken r))
        × (store r.writeidx x (overtaken r) ≡ done (stored x r))
        × Holds [] (stored x r)
  overtaking_get_loses x {r} h = (
    reserve_room 0 r (omega (arith, used-eq-length h)),
    get_filled 0 (reserved r) (get_or r.buffer r.writeidx none) (omega (arith, used-eq-length h))
        slot,
    store_in x r.writeidx (overtaken r) (omega arith),
    record {
      in_range = record {
        slots_there = omega (arith, length-set r.buffer r.writeidx (some x));
        read_in = omega arith;
        write_in = omega arith;
      };
      filled = ground (arith, used-eq-length h, none_used);
    },
  )
    where
      same : r.readidx ≡ r.writeidx
      same = omega (arith, used-eq-length h)

      slot : get_elem? r.buffer r.readidx ≡ some (get_or r.buffer r.writeidx none)
      slot = rw same (get_elem?-eq-get_or r.buffer r.writeidx none (omega arith))

      none_used : urchin.Ring.Slots.used (stored x r) ≡ 0
      none_used = omega (arith, used-eq-length h)
