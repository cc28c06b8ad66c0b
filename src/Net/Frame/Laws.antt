-- ===== src/Net/Frame/Laws.antt =====
-- Structs written to and read from the bytes of a frame.
use urchin.Prelude.{
  append_assoc, ℕ, zero, suc, ◌+◌, ◌≤◌, ◌<◌, ◌≡◌, refl, arith, ap, ap₂, sym, ◌∙◌, List, [], ◌∷◌,
  ◌++◌, Option, some, true, ◌>>=◌, length, take, drop, length-take, length-drop, length-append,
  drop-drop, All, leb,
}
use urchin.Net.Bytes.{IsBytes}
use urchin.Net.Frame.{field, overlay, at_offset}

module _ {A : Type 0} where
  pub take-append : (xs ys : List A) → take (length xs) (xs ++ ys) ≡ xs
  take-append [] ys = refl
  take-append (x ∷ xs) ys = ap (λ l. x ∷ l) (take-append xs ys)

  pub drop-append : (xs ys : List A) → drop (length xs) (xs ++ ys) ≡ ys
  drop-append [] ys = refl
  drop-append (x ∷ xs) ys = drop-append xs ys

All-take : (n : ℕ) (xs : List ℕ) → All (λ b. b < 256) xs → All (λ b. b < 256) (take n xs)
All-take zero xs h = tt
All-take (suc n) [] h = tt
All-take (suc n) (x ∷ xs) h = (h.0, All-take n xs h.1)

pub All-drop : (n : ℕ) (xs : List ℕ) → All (λ b. b < 256) xs → All (λ b. b < 256) (drop n xs)
All-drop zero xs h = h
All-drop (suc n) [] h = tt
All-drop (suc n) (x ∷ xs) h = All-drop n xs h.1

pub field-IsBytes :
    (offset size : ℕ) (slice : List ℕ)
    → All (λ b. b < 256) slice
    → offset + size ≤ length slice
    → IsBytes size (field offset size slice)
field-IsBytes offset size slice h fits = record {
  size = omega (arith, length-take size (drop offset slice), length-drop offset slice);
  bytes = All-take size (drop offset slice) (All-drop offset slice h);
}

pub overlay_lem :
    (bytes slice : List ℕ)
    → length bytes ≤ length slice
    → overlay bytes slice ≡ some (bytes ++ drop (length bytes) slice)
overlay_lem bytes slice h =
    let fits : leb (length bytes) (length slice) ≡ true = ground arith in rw fits refl

-- A second struct set directly behind a first one.
pub overlay_behind :
    (first second slice : List ℕ)
    → length first + length second ≤ length slice
    → at_offset (length first) (overlay second) (first ++ drop (length first) slice)
      ≡ some ((first ++ second) ++ drop (length first + length second) slice)
overlay_behind first second slice h =
    rw
      (
        fits,
        take-append first (drop (length first) slice),
        drop-append first (drop (length first) slice),
        overlay_lem second (drop (length first) slice) room,
        drop-drop (length first) (length second) slice,
      )
      (ap some (sym (append_assoc first second _)))
  where
    room : length second ≤ length (drop (length first) slice)
    room = omega (arith, length-drop (length first) slice)

    fits : leb (length first) (length (first ++ drop (length first) slice)) ≡ true
    fits = let e = length-append first (drop (length first) slice) in ground (arith, e)

pub overlay_at :
    (n : ℕ) (bytes slice : List ℕ)
    → length bytes ≡ n
    → n ≤ length slice
    → overlay bytes slice ≡ some (bytes ++ drop n slice)
overlay_at n bytes slice e h =
    overlay_lem bytes slice (omega arith) ∙ ap (λ m. some (bytes ++ drop m slice)) e

pub overlay_behind_at :
    (m n : ℕ) (first second slice : List ℕ)
    → length first ≡ m
    → length second ≡ n
    → m + n ≤ length slice
    → at_offset m (overlay second) (first ++ drop m slice)
      ≡ some ((first ++ second) ++ drop (m + n) slice)
overlay_behind_at m n first second slice e e' h =
    sym (ap (λ k. at_offset k (overlay second) (first ++ drop k slice)) e)
    ∙ overlay_behind first second slice (omega arith)
    ∙ ap₂ (λ k l. some ((first ++ second) ++ drop (k + l) slice)) e e'

pub bind_some :
    {A B : Type 0} {o : Option A} {a : A} (f : A → Option B) {r : Option B}
    → o ≡ some a
    → f a ≡ r
    → (o >>= f) ≡ r
bind_some f e h = ap (λ o. o >>= f) e ∙ h
