-- ===== src/Devices/Buffer.antt =====
-- `Buffer` of src/devices/buffer.rs: an aligned allocation and the position of the next layer's data
-- in it. The bytes of the allocation are the field `memory`.
pub mod Laws
mod Tests
use urchin.Prelude.{
  ℕ, ◌+◌, ◌-◌, ◌*◌, ◌/◌, ◌%◌, ◌^◌, List, [], Option, none, some, Bool, true, false, ◌&&◌, not, ◌==◌,
  leb, if◌then◌else◌, length, take, drop, usize, sub_usize, bit_and,
}

pub record Layout : Type 0 where
  pub size : ℕ
  pub align : ℕ

pub record Buffer : Type 0 where
  pub buffer_ptr : ℕ
  pub size : ℕ
  pub position : ℕ
  pub layout : Layout
  pub memory : List ℕ

-- `Layout::from_size_align`: the alignment is a power of two, and the size can be rounded up to it.
unfoldable pub from_size_align : ℕ → ℕ → Option Layout
from_size_align size align =
    if not (align == 0) && (bit_and align (align - 1) == 0) && leb size (2 ^ 64 - 1 - (align - 1))
    then some (record { size = size; align = align })
    else none

-- `((size - 1) / align + 1) * align`; a division by 0 panics before.
unfoldable pub actual_size : ℕ → ℕ → ℕ
actual_size size align = usize (usize (sub_usize size 1 / align + 1) * align)

pub data NewResult : Type 0 where
  ok : Buffer → NewResult
  layout_error : NewResult
  panic : NewResult

-- `pointer` and `memory` are what the allocator returns for a layout.
module _ (pointer : Layout → ℕ) (memory : Layout → List ℕ) where
  unfoldable pub of_layout : ℕ → Option Layout → NewResult
  of_layout size none = layout_error
  of_layout size (some l) =
      ok (record {
        buffer_ptr = pointer l;
        size = size;
        position = 0;
        layout = l;
        memory = memory l;
      })

  unfoldable pub new : ℕ → ℕ → NewResult
  unfolding of_layout from_size_align actual_size
  new size align =
      if align == 0 then panic else of_layout size (from_size_align (actual_size size align) align)

unfoldable pub slide_position : Buffer → ℕ → Buffer
slide_position b delta = record b { position = usize (b.position + delta) }

pub get_address : Buffer → ℕ
get_address b = b.buffer_ptr

unfoldable pub get_size : Buffer → ℕ
get_size b = b.size

-- The length that the source gives the slice.
unfoldable pub slice_len : Buffer → ℕ
slice_len b = sub_usize b.layout.size b.position

-- The bytes from the position on.
unfoldable pub slice : Buffer → List ℕ
unfolding slice_len
slice b = take (slice_len b) (drop b.position b.memory)
