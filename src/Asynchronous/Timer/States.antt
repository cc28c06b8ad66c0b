-- ===== src/Asynchronous/Timer/States.antt =====
-- Groups of timer states, and what the states are once a group of them was looked at.
use urchin.Prelude.{
  Option-cases, ℕ, ◌≤◌, ◌≡◌, ◌≢◌, refl, arith, ap, ap₂, ◌∙◌, List, [], ◌∷◌, ◌++◌, none, some, Bool,
  true, false, not, ◌&&◌, ◌||◌, ◌==◌, if◌then◌else◌, length, filter, All, Bool-cases, inl, inr,
}
use urchin.Asynchronous.Timer.{SharedState, store, is_expired, finish}

abbrev pub AllDistinct : List ℕ → Type 0
AllDistinct [] = Unit
AllDistinct (i ∷ is) = All (λ j. j ≢ i) is × AllDistinct is

abbrev pub elem : ℕ → List ℕ → Bool
elem i [] = false
elem i (j ∷ js) = (i == j) || elem i js

-- The tasks that wait for the expired ones of some states, in their order.
abbrev pub wakers_of : ℕ → SharedState → List ℕ
wakers_of nowtime s =
    if is_expired nowtime s then elim s.waker [ none ↦ [] | some task ↦ task ∷ [] ] else []

abbrev pub wakers : ℕ → (ℕ → SharedState) → List ℕ → List ℕ
wakers nowtime states [] = []
wakers nowtime states (i ∷ is) = wakers_of nowtime (states i) ++ wakers nowtime states is

abbrev pub is_pending : ℕ → (ℕ → SharedState) → ℕ → Bool
is_pending nowtime states i = not (is_expired nowtime (states i))

abbrev pub after : ℕ → (ℕ → SharedState) → List ℕ → ℕ → SharedState
after nowtime states is i =
    if elem i is && is_expired nowtime (states i) then finish (states i) else states i

pub filter-ext :
    (p q : ℕ → Bool) → ((i : ℕ) → p i ≡ q i) → (is : List ℕ) → filter p is ≡ filter q is
filter-ext p q h [] = refl
filter-ext p q h (i ∷ is) = ap₂ (λ b l. if b then i ∷ l else l) (h i) (filter-ext p q h is)

pub wakers-after :
    (nowtime i : ℕ) (states states' : ℕ → SharedState) (is : List ℕ)
    → All (λ j. j ≢ i) is
    → ((j : ℕ) → states' j ≡ after nowtime states (i ∷ []) j)
    → wakers nowtime states' is ≡ wakers nowtime states is
wakers-after nowtime i states states' [] h same = refl
wakers-after nowtime i states states' (j ∷ is) h same =
    ap₂ (λ s l. wakers_of nowtime s ++ l) (same j ∙ unchanged)
      (wakers-after nowtime i states states' is h.1 same)
  where
    unchanged : after nowtime states (i ∷ []) j ≡ states j
    unchanged = ground (arith, h.0)

pub after_expired :
    (nowtime i : ℕ) (states : ℕ → SharedState)
    → is_expired nowtime (states i) ≡ true
    → (j : ℕ) → store i (finish (states i)) states j ≡ after nowtime states (i ∷ []) j
after_expired nowtime i states e j = elim (Bool-cases (j == i)) [
  | inl same ↦ let at : j ≡ i = ground arith in rw (same, at, e) refl
  | inr other ↦ rw other refl
]

pub after_pending :
    (nowtime i : ℕ) (states : ℕ → SharedState)
    → is_expired nowtime (states i) ≡ false
    → (j : ℕ) → states j ≡ after nowtime states (i ∷ []) j
after_pending nowtime i states e j = elim (Bool-cases (j == i)) [
  | inl same ↦ let at : j ≡ i = ground arith in rw (same, at, e) refl
  | inr other ↦ rw other refl
]

pub elem_ne : (i : ℕ) (is : List ℕ) → All (λ j. j ≢ i) is → elem i is ≡ false
elem_ne i [] h = refl
elem_ne i (j ∷ is) h = ground (arith, h.0, elem_ne i is h.1)

-- The order in which two groups are looked at does not matter to a state.
pub after_cons :
    (nowtime i : ℕ) (states states' : ℕ → SharedState) (is : List ℕ)
    → All (λ j. j ≢ i) is
    → ((j : ℕ) → states' j ≡ after nowtime states (i ∷ []) j)
    → (j : ℕ) → after nowtime states' is j ≡ after nowtime states (i ∷ is) j
after_cons nowtime i states states' is h same j = elim (Bool-cases (j == i)) [
  | inl e ↦
      let at : j ≡ i = ground arith in
      let once : elem j is ≡ false = ap (λ k. elem k is) at ∙ elem_ne i is h in rw once (same j)
  | inr e ↦ let unchanged : states' j ≡ states j = ground (arith, same j) in rw (unchanged, e) refl
]

pub pending-after :
    (nowtime i : ℕ) (states states' : ℕ → SharedState)
    → ((j : ℕ) → states' j ≡ after nowtime states (i ∷ []) j)
    → (j : ℕ) → is_pending nowtime states' j ≡ is_pending nowtime states j
pending-after nowtime i states states' same j =
    ap (λ s. not (is_expired nowtime s)) (same j) ∙ ground arith

pub filter-cons :
    (p : ℕ → Bool) (i : ℕ) (is : List ℕ) → filter p (i ∷ is) ≡ filter p (i ∷ []) ++ filter p is
filter-cons p i is = elim (Bool-cases (p i)) [ inl e ↦ rw e refl | inr e ↦ rw e refl ]

pub length-filter_one : (p : ℕ → Bool) (i : ℕ) → length (filter p (i ∷ [])) ≤ 1
length-filter_one p i = elim (Bool-cases (p i)) [
  | inl e ↦ rw e (omega arith)
  | inr e ↦ rw e (omega arith)
]

pub length-wakers_of : (nowtime : ℕ) (s : SharedState) → length (wakers_of nowtime s) ≤ 1
length-wakers_of nowtime s = elim (Bool-cases (is_expired nowtime s)) [
  | inl e ↦ elim (Option-cases s.waker) [
    | inl e' ↦ rw (e, e') (omega arith)
    | inr (task, e') ↦ rw (e, e') (omega arith)
  ]
  | inr e ↦ rw e (omega arith)
]
