-- ===== src/Devices/Virtqueue/Window.antt =====
-- The buffers of a queue whose descriptors are with the device, by counters that never wrap.
use Prim.Native.Nat.{◌∣◌}
use mathlib.Core.Path.{subst}
use native.Mathlib.Decide.{dec_lt}
use native.Mathlib.Nat.{div-add-mod', mod-mod_of_dvd, one-le-pow, pow-le-pow_right, dvd-mul_right}
use urchin.Prelude.{
  ℕ, suc, ◌+◌, ◌-◌, ◌*◌, ◌/◌, ◌%◌, ◌^◌, ◌≤◌, ◌<◌, ◌≡◌, sym, ap, ◌∙◌, ◌≢◌, arith, List, [], ◌∷◌,
  ◌++◌, Option, none, some, length, get_or, set, get_or-set_ne, sub_u16, u16, bit_and,
}
use urchin.Prelude.Bits.{bit_and_low, pow-split}
use urchin.Devices.Buffer.{Buffer}
use urchin.Devices.Virtqueue.{mask_index}

-- Counters less than one round apart have different places.
pub mod-ne : (i j size : ℕ) → i < j → j < i + size → j % size ≢ i % size
mod-ne i j size lt near same = elim (dec_lt (i / size) (j / size)) [
  | yes up ↦
      let grown : suc (i / size) * size ≤ j / size * size = grind arith in
      omega (arith, grown, div-add-mod' i size, div-add-mod' j size)
  | no not_up ↦
      let shrunk : j / size * size ≤ i / size * size = grind arith in
      omega (arith, shrunk, div-add-mod' i size, div-add-mod' j size)
]

-- The buffers in the places `i`, `i + 1`, … are those of the list.
abbrev pub AreHeld : List (Option Buffer) → ℕ → ℕ → List Buffer → Type 0
AreHeld buffers size i [] = Unit
AreHeld buffers size i (b ∷ bs) =
    (get_or buffers (i % size) none ≡ some b) × AreHeld buffers size (suc i) bs

pub AreHeld-set :
    (buffers : List (Option Buffer)) (size i j : ℕ) (bs : List Buffer) (v : Option Buffer)
    → i + length bs ≤ j
    → j < i + size
    → AreHeld buffers size i bs
    → AreHeld (set buffers (j % size) v) size i bs
AreHeld-set buffers size i j [] v past near h = tt
AreHeld-set buffers size i j (b ∷ bs) v past near h = (
  get_or-set_ne buffers (j % size) (i % size) v none (mod-ne i j size (omega arith) near) ∙ h.0,
  AreHeld-set buffers size (suc i) j bs v (omega arith) (omega arith) h.1,
)

pub AreHeld-append :
    (buffers : List (Option Buffer)) (size i : ℕ) (bs : List Buffer) (b : Buffer)
    → AreHeld buffers size i bs
    → get_or buffers ((i + length bs) % size) none ≡ some b
    → AreHeld buffers size i (bs ++ (b ∷ []))
AreHeld-append buffers size i [] b h e =
    (ap (λ j. get_or buffers (j % size) none) (omega arith) ∙ e, tt)
AreHeld-append buffers size i (c ∷ bs) b h e =
    let shift : i + length (c ∷ bs) ≡ suc i + length bs = omega arith in
    (h.0, AreHeld-append buffers size (suc i) bs b h.1 (rw shift at e))

-- A queue size: a power of two, at most 2 ^ 15.
pub record IsSize (size : ℕ) : Type 0 where
  pub bits : ℕ
  pub power : size ≡ 2 ^ bits
  pub small : bits ≤ 15

pub IsSize_range : {size : ℕ} → IsSize size → (1 ≤ size) × (size ≤ 2 ^ 15)
IsSize_range s =
    let lo = one-le-pow s.bits 2 (omega arith) in
    let hi : 2 ^ s.bits ≤ 2 ^ 15 = pow-le-pow_right {n = 2} (omega arith) s.small in
    omega (arith, lo, hi, s.power)

pub mask_index_lem : {size : ℕ} → IsSize size → (x : ℕ) → mask_index x size ≡ x % size
mask_index_lem {size} s x =
    ap (bit_and x) ones ∙ bit_and_low s.bits x ∙ ap (λ m. x % m) (sym s.power)
  where
    ones : sub_u16 size 1 ≡ 2 ^ s.bits - 1
    ones = omega (arith, IsSize_range s, s.power)

-- A counter of 16 bits gives the place of the counter that does not wrap.
pub u16-mod : {size : ℕ} → IsSize size → (x : ℕ) → u16 x % size ≡ x % size
u16-mod {size} s x = mod-mod_of_dvd size x divides
  where
    divides : size ∣ 2 ^ 16
    divides = rw s.power (
        subst (λ m. 2 ^ s.bits ∣ m) (pow-split 16 s.bits (omega (arith, s.small)))
          (dvd-mul_right (2 ^ s.bits) (2 ^ (16 - s.bits))))
