-- ===== src/Net/Icmpv4/Copy.antt =====
-- The writes of an echo reply: single bytes, words, and the payload.
use urchin.Prelude.{
  ℕ, zero, suc, ◌+◌, ◌≤◌, ◌<◌, ◌≡◌, refl, arith, ap, ap₂, sym, ◌∙◌, List, [], ◌∷◌, ◌++◌, some, true,
  append-nil, append_assoc, length, length-set, length-drop, take, drop, set, get_or,
  get_elem?-eq-get_or, lt→ltb, ltb, leb, All,
}
use urchin.Net.Frame.{overlay, at_offset}
use urchin.Net.Icmpv4.{copy_payload}

-- The first elements of a list of known length.
abbrev pub firsts : ℕ → List ℕ → List ℕ
firsts zero xs = []
firsts (suc n) xs = get_or xs 0 0 ∷ firsts n (drop 1 xs)

pub explicit : (n : ℕ) (xs : List ℕ) → length xs ≡ n → firsts n xs ≡ xs
explicit zero [] h = refl
explicit zero (x ∷ xs) h = absurd (omega arith)
explicit (suc n) [] h = absurd (omega arith)
explicit (suc n) (x ∷ xs) h = ap (λ l. x ∷ l) (explicit n xs (omega arith))

pub All-set :
    (xs : List ℕ) (i v : ℕ) → All (λ b. b < 256) xs → v < 256 → All (λ b. b < 256) (set xs i v)
All-set [] i v h lt = tt
All-set (x ∷ xs) zero v h lt = (lt, h.1)
All-set (x ∷ xs) (suc i) v h lt = (h.0, All-set xs i v h.1 lt)

two_set :
    (i a b : ℕ) (xs : List ℕ)
    → i + 2 ≤ length xs
    → take i xs ++ (a ∷ b ∷ drop 2 (drop i xs)) ≡ set (set xs i a) (suc i) b
two_set i a b [] h = absurd (omega arith)
two_set zero a b (x ∷ []) h = absurd (omega arith)
two_set zero a b (x ∷ y ∷ xs) h = refl
two_set (suc i) a b (x ∷ xs) h = ap (λ l. x ∷ l) (two_set i a b xs (omega arith))

-- Two bytes over a slice.
pub overlay_two :
    (i a b : ℕ) (xs : List ℕ)
    → i + 2 ≤ length xs
    → at_offset i (overlay (a ∷ b ∷ [])) xs ≡ some (set (set xs i a) (i + 1) b)
overlay_two i a b xs h =
    let fits : leb i (length xs) ≡ true = ground arith in
    let room : leb 2 (length (drop i xs)) ≡ true = ground (arith, length-drop i xs) in
    let next : suc i ≡ i + 1 = omega arith in
    rw (fits, room) (ap some (two_set i a b xs h ∙ ap (λ j. set (set xs i a) j b) next))

take-set :
    (i v : ℕ) (xs : List ℕ) → i < length xs → take (suc i) (set xs i v) ≡ take i xs ++ (v ∷ [])
take-set i v [] h = absurd (omega arith)
take-set zero v (x ∷ xs) h = refl
take-set (suc i) v (x ∷ xs) h = ap (λ l. x ∷ l) (take-set i v xs (omega arith))

drop-set : (i j v : ℕ) (xs : List ℕ) → i < j → drop j (set xs i v) ≡ drop j xs
drop-set i zero v xs h = absurd (omega arith)
drop-set i (suc j) v [] h = refl
drop-set zero (suc j) v (x ∷ xs) h = refl
drop-set (suc i) (suc j) v (x ∷ xs) h = drop-set i j v xs (omega arith)

drop-cons : (i : ℕ) (xs : List ℕ) → i < length xs → drop i xs ≡ get_or xs i 0 ∷ drop (suc i) xs
drop-cons i [] h = absurd (omega arith)
drop-cons zero (x ∷ xs) h = refl
drop-cons (suc i) (x ∷ xs) h = drop-cons i xs (omega arith)

take-drop : (i : ℕ) (xs : List ℕ) → take i xs ++ drop i xs ≡ xs
take-drop zero xs = refl
take-drop (suc i) [] = refl
take-drop (suc i) (x ∷ xs) = ap (λ l. x ∷ l) (take-drop i xs)

-- The loop copies the bytes from the place `i` on.
pub copy_payload_lem :
    (left i : ℕ) (slice respslice : List ℕ)
    → i + left ≤ length slice
    → i + left ≤ length respslice
    → copy_payload left i slice respslice
      ≡ some (take i respslice ++ take left (drop i slice) ++ drop (i + left) respslice)
unfolding copy_payload
copy_payload_lem zero i slice respslice h h' =
    let same : i + 0 ≡ i = omega arith in
    ap some (sym (take-drop i respslice) ∙ rw same (rw (append-nil (take i respslice)) refl))
copy_payload_lem (suc left) i slice respslice h h' =
    let byte = get_or slice i 0 in
    let fits : ltb i (length respslice) ≡ true = lt→ltb _ _ (omega arith) in
    let next : i + 1 ≡ suc i = omega arith in
    let total : i + 1 + left ≡ i + suc left = omega arith in
    rw (get_elem?-eq-get_or slice i 0 (omega arith), fits)
      (copy_payload_lem left (i + 1) slice (set respslice i byte) (omega arith)
          (omega (arith, length-set respslice i byte))
        ∙ ap some (
            ap₂ (λ l n. l ++ drop n (set respslice i byte))
              (ap₂ (λ k l. take k (set respslice i byte) ++ take left l) next
                (ap (λ k. drop k slice) next))
              total
            ∙ rw
                (
                  take-set i byte respslice (omega arith),
                  drop-set i (i + suc left) byte respslice (omega arith),
                  drop-cons i slice (omega arith),
                )
                (ap (λ l. l ++ drop (i + suc left) respslice)
                  (append_assoc (take i respslice) (byte ∷ []) (take left (drop (suc i) slice))))))
