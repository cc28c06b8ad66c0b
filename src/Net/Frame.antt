-- ===== src/Net/Frame.antt =====
-- Packed structs in the bytes of a frame (src/net/*.rs). A panic, or a struct that does not lie in
-- the slice, is `none`.
pub mod Laws
use urchin.Prelude.{
  ℕ, ◌+◌, ◌*◌, ◌/◌, List, [], ◌∷◌, ◌++◌, Option, none, some, Bool, true, false, ◌&&◌, ◌==◌, leb,
  if◌then◌else◌, length, take, drop, get_or, u8, ◌>>=◌,
}

abbrev pub field : ℕ → ℕ → List ℕ → List ℕ
field offset size slice = take size (drop offset slice)

-- `&*(&slice[offset] as *const _ as *const T)` for a struct of `size` bytes.
abbrev pub view : ℕ → ℕ → List ℕ → Option (List ℕ)
view offset size slice =
    if leb (offset + size) (length slice) then some (field offset size slice) else none

-- All fields of a struct at the start of the slice are set.
abbrev pub overlay : List ℕ → List ℕ → Option (List ℕ)
overlay bytes slice =
    if leb (length bytes) (length slice) then some (bytes ++ drop (length bytes) slice) else none

-- A function that writes to `&mut slice[offset..]`.
abbrev pub at_offset : ℕ → (List ℕ → Option (List ℕ)) → List ℕ → Option (List ℕ)
at_offset offset write slice =
    if leb offset (length slice)
    then (write (drop offset slice) >>= λ rest. some (take offset slice ++ rest))
    else none

-- A u16 in memory, low byte first.
abbrev pub le16 : ℕ → List ℕ
le16 v = u8 v ∷ u8 (v / 256) ∷ []

abbrev pub le16_at : ℕ → List ℕ → ℕ
le16_at i bytes = get_or bytes i 0 + get_or bytes (i + 1) 0 * 256

abbrev pub same_bytes : List ℕ → List ℕ → Bool
same_bytes [] [] = true
same_bytes (x ∷ xs) (y ∷ ys) = (x == y) && same_bytes xs ys
same_bytes _ _ = false
