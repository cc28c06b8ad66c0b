-- ===== src/Ring.antt =====
-- `RingBuffer` of src/ringbuf.rs. Its indices are atomics: here an operation runs alone, except that
-- `put` is cut at the point where it has reserved a slot and not yet stored into it.
pub mod Queue
pub mod Slots
pub mod Refine
pub mod Race
mod Tests
use urchin.Prelude.{
  ℕ, zero, suc, ◌+◌, ◌%◌, List, [], Option, none, some, Bool, true, false, ◌==◌, not, if◌then◌else◌,
  usize, get_elem?, set, replicate, length, ltb,
}

abbrev pub ringbuf_length : ℕ
ringbuf_length = 10_000

pub record RingBuffer (A : Type 0) : Type 0 where
  pub buffer : List (Option A)
  pub readidx : ℕ
  pub writeidx : ℕ

-- `panic` is an index out of range; `spinning` says that the rounds given were not enough.
pub data Outcome (B : Type 0) : Type 0 where
  done : B → Outcome B
  panic : Outcome B
  spinning : Outcome B

abbrev pub next_index : ℕ → ℕ
next_index i = usize (i + 1) % ringbuf_length

-- The value that `compare_and_swap` returns, and what it leaves in the atomic.
pub compare_and_swap : ℕ → ℕ → ℕ → ℕ × ℕ
compare_and_swap cell current value = (cell, if cell == current then value else cell)

module _ {A : Type 0} where
  unfoldable pub new : RingBuffer A
  new = record { buffer = replicate ringbuf_length none; readidx = 0; writeidx = 0 }

  -- `Default::default()` of a `Vec` is the empty one.
  unfoldable pub default_ring : RingBuffer A
  default_ring = record { buffer = []; readidx = 0; writeidx = 0 }

  -- `&self.buffer[rix]`, matched on `Some` and `None`; the two arms return the slot as it is.
  take_slot : RingBuffer A → Option (Option A) → Outcome (Option A × RingBuffer A)
  take_slot r none = panic
  take_slot r (some slot) = done (slot, r)

  pub get : ℕ → RingBuffer A → Outcome (Option A × RingBuffer A)
  unfolding compare_and_swap take_slot
  get zero r = spinning
  get (suc rounds) r =
      let wix = r.writeidx in
      let rix = r.readidx in
      let new_rix = next_index rix in
      let (old, readidx') = compare_and_swap r.readidx rix new_rix in
      let again = get rounds (record r { readidx = readidx' }) in
      if rix == wix
      then done (none, r)
      else if rix == old
      then take_slot (record r { readidx = readidx' }) (get_elem? r.buffer rix)
      else again

  -- The loop of `put`: it ends with the index that it reserved.
  pub reserve : ℕ → RingBuffer A → Outcome (ℕ × RingBuffer A)
  unfolding compare_and_swap
  reserve zero r = spinning
  reserve (suc rounds) r =
      let rix = r.readidx in
      let wix = r.writeidx in
      let new_wix = next_index wix in
      let (old, writeidx') = compare_and_swap r.writeidx wix new_wix in
      let waiting = reserve rounds r in
      let lost_race = reserve rounds (record r { writeidx = writeidx' }) in
      if not (rix == new_wix)
      then (if wix == old then done (wix, record r { writeidx = writeidx' }) else lost_race)
      else waiting

  -- `self.buffer[wix] = Some(val)`
  pub store : ℕ → A → RingBuffer A → Outcome (RingBuffer A)
  store wix val r =
      if ltb wix (length r.buffer)
      then done (record r { buffer = set r.buffer wix (some val) })
      else panic

  after_reserve : A → Outcome (ℕ × RingBuffer A) → Outcome (RingBuffer A)
  unfolding store
  after_reserve val (done (wix, r)) = store wix val r
  after_reserve val panic = panic
  after_reserve val spinning = spinning

  pub put : ℕ → A → RingBuffer A → Outcome (RingBuffer A)
  unfolding reserve after_reserve
  put rounds val r = after_reserve val (reserve rounds r)
