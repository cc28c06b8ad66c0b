-- ===== src/Devices/VirtioMmio/Cmdline/Text.antt =====
-- The text that places devices on the kernel's command line.
use urchin.Prelude.{
  ℕ, ◌+◌, ◌*◌, ◌<◌, ◌≡◌, ◌≢◌, refl, arith, ap, sym, ◌∙◌, List, [], ◌∷◌, ◌++◌, map, some, true,
  false, ◌==◌, if◌then◌else◌, ltb, length, All,
}
use urchin.Devices.VirtioMmio.Cmdline.{starts_with, find, keyphrase, at_hex}

-- The size in digits, times 1024 once for "k" and twice for "m".
pub data Unit1024 : Type 0 where
  bytes : Unit1024
  kilo : Unit1024
  mega : Unit1024

-- Digits, the highest first: of the size and the interrupt line to base ten, of the address to base
-- sixteen.
pub record Placement : Type 0 where
  pub size_digits : List ℕ
  pub size_unit : Unit1024
  pub addr_digits : List ℕ
  pub irq_digits : List ℕ

pub record IsPlacement (d : Placement) : Type 0 where
  pub size_ok : All (λ x. x < 10) d.size_digits
  pub addr_ok : All (λ x. x < 16) d.addr_digits
  pub irq_ok : All (λ x. x < 10) d.irq_digits

abbrev pub value : ℕ → ℕ → List ℕ → ℕ
value base acc [] = acc
value base acc (d ∷ ds) = value base (acc * base + d) ds

abbrev pub unit_factor : Unit1024 → ℕ
unit_factor bytes = 1
unit_factor kilo = 1024
unit_factor mega = 1024 * 1024

abbrev pub unit_text : Unit1024 → List ℕ
unit_text bytes = []
unit_text kilo = 107 ∷ []
unit_text mega = 109 ∷ []

abbrev pub digit_char : ℕ → ℕ
digit_char d = 48 + d

abbrev pub hex_char : ℕ → ℕ
hex_char d = if ltb d 10 then 48 + d else 87 + d

abbrev pub size_text : Placement → List ℕ
size_text d = map digit_char d.size_digits ++ unit_text d.size_unit

abbrev pub addr_text : Placement → List ℕ
addr_text d = map hex_char d.addr_digits

abbrev pub irq_text : Placement → List ℕ
irq_text d = map digit_char d.irq_digits

-- "4k@0xd0000000:5 "
abbrev pub placement_text : Placement → List ℕ → List ℕ
placement_text d rest =
    size_text d ++ (at_hex ++ (addr_text d ++ (58 ∷ (irq_text d ++ (32 ∷ rest)))))

abbrev pub devices_text : List Placement → List ℕ
devices_text [] = []
devices_text (d ∷ ds) = keyphrase ++ placement_text d (devices_text ds)

-- A pattern is not found before its first character.
pub find_skip :
    (p : ℕ) (ps skip s : List ℕ) (i : ℕ)
    → All (λ c. c ≢ p) skip
    → find (p ∷ ps) s ≡ some i
    → find (p ∷ ps) (skip ++ s) ≡ some (length skip + i)
find_skip p ps [] s i h e = e ∙ ap some (omega arith)
find_skip p ps (c ∷ skip) s i h e =
    let first : (p == c) ≡ false = ground (arith, h.0) in
    rw (first, find_skip p ps skip s i h.1 e) (ap some (omega arith))

pub starts_with-append : (ps s : List ℕ) → starts_with ps (ps ++ s) ≡ true
starts_with-append [] s = refl
starts_with-append (p ∷ ps) s = ground (arith, starts_with-append ps s)

-- It is found where it stands.
pub find_here : (p : ℕ) (ps s : List ℕ) → find (p ∷ ps) ((p ∷ ps) ++ s) ≡ some 0
find_here p ps s = rw (starts_with-append (p ∷ ps) s) refl

pub find_text :
    (p : ℕ) (ps skip s : List ℕ)
    → All (λ c. c ≢ p) skip
    → find (p ∷ ps) (skip ++ ((p ∷ ps) ++ s)) ≡ some (length skip)
find_text p ps skip s h =
    find_skip p ps skip ((p ∷ ps) ++ s) 0 h (find_here p ps s) ∙ ap some (omega arith)

All-append : (P : ℕ → Type 0) (xs ys : List ℕ) → All P xs → All P ys → All P (xs ++ ys)
All-append P [] ys h h' = h'
All-append P (x ∷ xs) ys h h' = (h.0, All-append P xs ys h.1 h')

All-map :
    (P R : ℕ → Type 0) (f : ℕ → ℕ)
    → ((x : ℕ) → P x → R (f x))
    → (xs : List ℕ) → All P xs
    → All R (map f xs)
All-map P R f h [] all = tt
All-map P R f h (x ∷ xs) all = (h x all.0, All-map P R f h xs all.1)

-- The characters of the three texts, which are none of those that end them.
pub size_text-chars :
    (p : ℕ) (d : Placement)
    → IsPlacement d
    → 57 < p
    → p ≢ 107
    → p ≢ 109
    → All (λ c. c ≢ p) (size_text d)
size_text-chars p d h above nk nm =
    All-append (λ c. c ≢ p) (map digit_char d.size_digits) (unit_text d.size_unit)
      (All-map (λ x. x < 10) (λ c. c ≢ p) digit_char (λ x lt e. omega (arith, e)) d.size_digits
        h.size_ok)
      (units d.size_unit)
  where
    units : (u : Unit1024) → All (λ c. c ≢ p) (unit_text u)
    units bytes = tt
    units kilo = (λ e. nk (sym e), tt)
    units mega = (λ e. nm (sym e), tt)

pub addr_text-chars :
    (p : ℕ) (d : Placement)
    → IsPlacement d
    → ((x : ℕ) → x < 16 → hex_char x ≢ p)
    → All (λ c. c ≢ p) (addr_text d)
addr_text-chars p d h ne = All-map (λ x. x < 16) (λ c. c ≢ p) hex_char ne d.addr_digits h.addr_ok

pub irq_text-chars :
    (p : ℕ) (d : Placement)
    → IsPlacement d
    → ((x : ℕ) → x < 10 → digit_char x ≢ p)
    → All (λ c. c ≢ p) (irq_text d)
irq_text-chars p d h ne = All-map (λ x. x < 10) (λ c. c ≢ p) digit_char ne d.irq_digits h.irq_ok

-- No "v" stands in the text of a placement, so the key phrase is not found in it.
pub placement_text-chars :
    (d : Placement)
    → IsPlacement d
    → All
        (λ c. c ≢ 118)
        (size_text d ++ (at_hex ++ (addr_text d ++ (58 ∷ (irq_text d ++ (32 ∷ []))))))
placement_text-chars d h =
    All-append P (size_text d) _
      (size_text-chars 118 d h (omega arith) (λ e. omega (arith, e)) (λ e. omega (arith, e)))
      (All-append P at_hex _
        (ne 64 (omega arith), (ne 48 (omega arith), (ne 120 (omega arith), tt)))
        (All-append P (addr_text d) _ (addr_text-chars 118 d h (λ x lt e. ground (arith, e))) (
          ne 58 (omega arith),
          All-append P (irq_text d) (32 ∷ []) (irq_text-chars 118 d h (λ x lt e. omega (arith, e)))
              (ne 32 (omega arith), tt),
        )))
  where
    P : ℕ → Type 0
    P c = c ≢ 118

    ne : (c : ℕ) → c ≢ 118 → c ≢ 118
    ne c h = h
