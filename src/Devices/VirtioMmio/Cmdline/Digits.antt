-- ===== src/Devices/VirtioMmio/Cmdline/Digits.antt =====
-- What the loops over the characters make of digits.
use urchin.Prelude.{
  ℕ, ◌+◌, ◌*◌, ◌%◌, ◌^◌, ◌<◌, ◌≡◌, refl, arith, ◌∙◌, List, [], ◌∷◌, ◌++◌, map, All,
}
use urchin.Devices.VirtioMmio.Cmdline.{size_step, addr_step, irq_step, each_char}
use urchin.Devices.VirtioMmio.Cmdline.Text.{
  Unit1024, bytes, kilo, mega, Placement, IsPlacement, value, unit_factor, unit_text, digit_char,
  hex_char, size_text,
}

pub each_char-append :
    (step : ℕ → ℕ → ℕ) (v : ℕ) (s t : List ℕ)
    → each_char step v (s ++ t) ≡ each_char step (each_char step v s) t
each_char-append step v [] t = refl
each_char-append step v (c ∷ s) t = each_char-append step (step v c) s t

pub size_step_digit :
    (v acc d : ℕ) → v ≡ acc % 2 ^ 64 → d < 10 → size_step v (digit_char d) ≡ (acc * 10 + d) % 2 ^ 64
unfolding size_step
size_step_digit v acc d e h = ground arith

pub addr_step_digit :
    (v acc d : ℕ) → v ≡ acc % 2 ^ 64 → d < 16 → addr_step v (hex_char d) ≡ (acc * 16 + d) % 2 ^ 64
unfolding addr_step
addr_step_digit v acc d e h = ground arith

pub irq_step_digit :
    (v acc d : ℕ) → v ≡ acc % 2 ^ 8 → d < 10 → irq_step v (digit_char d) ≡ (acc * 10 + d) % 2 ^ 8
unfolding irq_step
irq_step_digit v acc d e h = ground arith

-- The digits of a number give the number, as far as the word goes.
pub digits_lem :
    (step : ℕ → ℕ → ℕ) (char : ℕ → ℕ) (base m : ℕ)
    → ((v acc d : ℕ) → v ≡ acc % m → d < base → step v (char d) ≡ (acc * base + d) % m)
    → (v acc : ℕ) (ds : List ℕ) → v ≡ acc % m
    → All (λ x. x < base) ds
    → each_char step v (map char ds) ≡ value base acc ds % m
digits_lem step char base m digit v acc [] e h = e
digits_lem step char base m digit v acc (d ∷ ds) e h =
    digits_lem step char base m digit (step v (char d)) (acc * base + d) ds (digit v acc d e h.0)
      h.1

abbrev pub size_value : Placement → ℕ
size_value d = value 10 0 d.size_digits * unit_factor d.size_unit % 2 ^ 64

abbrev pub addr_value : Placement → ℕ
addr_value d = value 16 0 d.addr_digits % 2 ^ 64

abbrev pub irq_value : Placement → ℕ
irq_value d = value 10 0 d.irq_digits % 2 ^ 8

pub unit_lem :
    (v acc : ℕ) (u : Unit1024)
    → v ≡ acc % 2 ^ 64
    → each_char size_step v (unit_text u) ≡ acc * unit_factor u % 2 ^ 64
unfolding size_step
unit_lem v acc bytes e = omega arith
unit_lem v acc kilo e = ground arith
unit_lem v acc mega e = ground arith

pub size_lem : (d : Placement) → IsPlacement d → each_char size_step 0 (size_text d) ≡ size_value d
size_lem d h =
    each_char-append size_step 0 (map digit_char d.size_digits) (unit_text d.size_unit)
    ∙ unit_lem _ (value 10 0 d.size_digits) d.size_unit (
        digits_lem size_step digit_char 10 (2 ^ 64) size_step_digit 0 0 d.size_digits (omega arith)
          h.size_ok)
