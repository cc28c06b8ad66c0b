-- ===== src/Devices/VirtioMmio/Cmdline/Reads.antt =====
-- `parse` reads back what the text of the devices says.
use mathlib.Core.Path.{subst}
use urchin.Prelude.{
  ℕ, zero, suc, ◌+◌, ◌-◌, ◌^◌, ◌≡◌, ◌≢◌, refl, arith, ap, ap₂, sym, ◌∙◌, List, [], ◌∷◌, ◌++◌,
  Option, none, some, length, drop, take, All, append_assoc, get_elem?, drop-drop,
}
use urchin.Net.Frame.Laws.{take-append, drop-append, bind_some}
use urchin.Devices.VirtioMmio.Cmdline.{
  find, keyphrase, at_hex, substring, size_loop, size_step, addr_step, irq_step, each_char, parse,
  parse_at,
}
use urchin.Devices.VirtioMmio.Cmdline.Text.{
  Placement, IsPlacement, digit_char, hex_char, size_text, addr_text, irq_text, placement_text,
  devices_text, find_text, size_text-chars, addr_text-chars, irq_text-chars, placement_text-chars,
}
use urchin.Devices.VirtioMmio.Cmdline.Digits.{
  addr_step_digit, irq_step_digit, digits_lem, size_value, addr_value, irq_value, size_lem,
}

-- A slice behind a text.
drop_text : (xs ys : List ℕ) (n : ℕ) → drop (length xs + n) (xs ++ ys) ≡ drop n ys
drop_text xs ys n = sym (drop-drop (length xs) n (xs ++ ys)) ∙ ap (drop n) (drop-append xs ys)

drop_next :
    (i n : ℕ) (s xs ys : List ℕ) → drop i s ≡ xs ++ ys → drop (i + length xs + n) s ≡ drop n ys
drop_next i n s xs ys e =
    ap (λ k. drop k s) (omega arith)
    ∙ sym (drop-drop i (length xs + n) s)
    ∙ ap (drop (length xs + n)) e
    ∙ drop_text xs ys n

substring_lem :
    (i j : ℕ) (s xs ys : List ℕ) → j - i ≡ length xs → drop i s ≡ xs ++ ys → substring i j s ≡ xs
substring_lem i j s xs ys size e = ap₂ take size e ∙ take-append xs ys

triple :
    {a a' b b' c c' : ℕ}
    → a ≡ a'
    → b ≡ b'
    → c ≡ c'
    → ◌≡◌ {A = Option (ℕ × ℕ × ℕ)} (some (a, b, c)) (some (a', b', c'))
triple p q r = cc (p, q, r)

parse_at_lem :
    (cmdline : List ℕ) (i : ℕ) (d : Placement) (rest : List ℕ)
    → IsPlacement d
    → drop i cmdline ≡ placement_text d rest
    → parse_at cmdline i ≡ some (addr_value d, size_value d, irq_value d)
unfolding parse_at
parse_at_lem cmdline i d rest h e = bind_some _ at (bind_some _ colon (triple addr size irq))
  where
    addr_idx : ℕ
    addr_idx = i + length (size_text d) + 3

    irq_idx : ℕ
    irq_idx = addr_idx + length (addr_text d) + 1

    at : find at_hex (drop i cmdline) ≡ some (length (size_text d))
    at =
        ap (find at_hex) e
        ∙ find_text 64 (48 ∷ 120 ∷ []) (size_text d) _
            (size_text-chars 64 d h (omega arith) (λ p. omega (arith, p)) (λ p. omega (arith, p)))

    behind_size : drop addr_idx cmdline ≡ addr_text d ++ (58 ∷ (irq_text d ++ (32 ∷ rest)))
    behind_size = drop_next i 3 cmdline (size_text d) _ e

    colon : find (58 ∷ []) (drop addr_idx cmdline) ≡ some (length (addr_text d))
    colon =
        ap (find (58 ∷ [])) behind_size
        ∙ find_text 58 [] (addr_text d) _ (addr_text-chars 58 d h (λ x lt p. ground (arith, p)))

    behind_addr : drop irq_idx cmdline ≡ irq_text d ++ (32 ∷ rest)
    behind_addr = drop_next addr_idx 1 cmdline (addr_text d) _ behind_size

    space : find (32 ∷ []) (drop irq_idx cmdline) ≡ some (length (irq_text d))
    space =
        ap (find (32 ∷ [])) behind_addr
        ∙ find_text 32 [] (irq_text d) rest (irq_text-chars 32 d h (λ x lt p. omega (arith, p)))

    addr : each_char addr_step 0 (substring addr_idx (irq_idx - 1) cmdline) ≡ addr_value d
    addr =
        ap (each_char addr_step 0)
          (substring_lem addr_idx (irq_idx - 1) cmdline (addr_text d) _ (omega arith) behind_size)
        ∙ digits_lem addr_step hex_char 16 (2 ^ 64) addr_step_digit 0 0 d.addr_digits (omega arith)
            h.addr_ok

    size : each_char size_step 0 (substring i (addr_idx - 3) cmdline) ≡ size_value d
    size =
        ap (each_char size_step 0)
          (substring_lem i (addr_idx - 3) cmdline (size_text d) _ (omega arith) e)
        ∙ size_lem d h

    irq :
        each_char irq_step 0 (
          substring irq_idx
            (elim (find (32 ∷ []) (drop irq_idx cmdline)) [
              | none ↦ length cmdline
              | some n ↦ irq_idx + n
            ])
            cmdline)
        ≡ irq_value d
    irq = rw space (
        ap (each_char irq_step 0) (
          substring_lem irq_idx (irq_idx + length (irq_text d)) cmdline (irq_text d) (32 ∷ rest)
            (omega arith) behind_addr)
        ∙ digits_lem irq_step digit_char 10 (2 ^ 8) irq_step_digit 0 0 d.irq_digits (omega arith)
            h.irq_ok)

-- A placement's own text, and what follows it.
abbrev own_text : Placement → List ℕ
own_text d = size_text d ++ (at_hex ++ (addr_text d ++ (58 ∷ (irq_text d ++ (32 ∷ [])))))

placement_split : (d : Placement) (rest : List ℕ) → placement_text d rest ≡ own_text d ++ rest
placement_split d rest = sym (
    append_assoc (size_text d) _ rest
    ∙ ap (λ l. size_text d ++ (at_hex ++ l))
        (append_assoc (addr_text d) _ rest
          ∙ ap (λ l. addr_text d ++ (58 ∷ l)) (append_assoc (irq_text d) (32 ∷ []) rest)))

module _ (cmdline : List ℕ) where
  phrase_found :
      (keyidx : ℕ) (skip : List ℕ) (d : Placement) (ds : List Placement)
      → All (λ c. c ≢ 118) skip
      → drop keyidx cmdline ≡ skip ++ devices_text (d ∷ ds)
      → find keyphrase (drop keyidx cmdline) ≡ some (length skip)
  phrase_found keyidx skip d ds clean e =
      ap (find keyphrase) e
      ∙ find_text 118 (drop 1 keyphrase) skip (placement_text d (devices_text ds)) clean

  behind_phrase :
      (keyidx : ℕ) (skip : List ℕ) (d : Placement) (ds : List Placement)
      → drop keyidx cmdline ≡ skip ++ devices_text (d ∷ ds)
      → drop (keyidx + (length skip + length keyphrase)) cmdline
        ≡ placement_text d (devices_text ds)
  behind_phrase keyidx skip d ds e =
      ap (λ k. drop k cmdline) (omega arith)
      ∙ drop_next keyidx (length keyphrase) cmdline skip _ e
      ∙ drop-append keyphrase (placement_text d (devices_text ds))

  size_loop_lem :
      (n : ℕ) (ds : List Placement) (keyidx : ℕ) (skip : List ℕ) (d : Placement)
      → All IsPlacement ds
      → All (λ c. c ≢ 118) skip
      → drop keyidx cmdline ≡ skip ++ devices_text ds
      → get_elem? ds n ≡ some d
      → (i : ℕ) × (rest : List ℕ) × (size_loop (suc n) keyidx cmdline ≡ some i)
        × (drop i cmdline ≡ placement_text d rest)
        × IsPlacement d
  unfolding size_loop
  size_loop_lem n [] keyidx skip d all clean e at = absurd (ground (arith, at))
  size_loop_lem zero (d₀ ∷ ds) keyidx skip d all clean e at = (
    keyidx + (length skip + length keyphrase),
    devices_text ds,
    bind_some _ (phrase_found keyidx skip d₀ ds clean e) refl,
    behind_phrase keyidx skip d₀ ds e ∙ ap (λ p. placement_text p (devices_text ds)) (cc at),
    subst IsPlacement (cc at) all.0,
  )
  size_loop_lem (suc n) (d₀ ∷ ds) keyidx skip d all clean e at =
      let (i, rest, found, behind, ok) =
        size_loop_lem n ds (keyidx + (length skip + length keyphrase)) (own_text d₀) d all.1
          (placement_text-chars d₀ all.0)
          (behind_phrase keyidx skip d₀ ds e ∙ placement_split d₀ (devices_text ds)) at in
      (i, rest, bind_some _ (phrase_found keyidx skip d₀ ds clean e) found, behind, ok)

-- The command line lists devices behind a text without a "v": the device of each number is read as the
-- list has it, as far as the widths of its numbers go.
pub parse-devices_text :
    (before : List ℕ) (ds : List Placement) (idx : ℕ) (d : Placement)
    → All (λ c. c ≢ 118) before
    → All IsPlacement ds
    → get_elem? ds idx ≡ some d
    → parse (before ++ devices_text ds) idx ≡ some (addr_value d, size_value d, irq_value d)
unfolding parse
parse-devices_text before ds idx d clean all at =
    let (i, rest, found, behind, ok) =
      size_loop_lem (before ++ devices_text ds) idx ds 0 before d all clean refl at in
    let one_more : idx + 1 ≡ suc idx = omega arith in
    bind_some (parse_at (before ++ devices_text ds))
      (ap (λ n. size_loop n 0 (before ++ devices_text ds)) one_more ∙ found)
      (parse_at_lem (before ++ devices_text ds) i d rest ok behind)
