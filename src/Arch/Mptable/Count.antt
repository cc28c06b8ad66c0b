-- ===== src/Arch/Mptable/Count.antt =====
-- The count ends on every table, and is right on a well-formed one.
use mathlib.Core.Path.{subst}
use urchin.Prelude.{
  ℕ, zero, suc, ◌+◌, ◌-◌, ◌/◌, ◌^◌, ◌<◌, ◌≤◌, ◌≡◌, ◌≢◌, refl, arith, ap, ◌∙◌, List, [], ◌∷◌, some,
  true, false, ◌==◌, ltb, if◌then◌else◌, length, filter, u32, u64, Bool-cases, inl, inr,
}
use urchin.Arch.Mptable.{count_loop}

-- Whatever the entries are, a round for each eight bytes and one more are enough.
pub count_loop-ends :
    (fuel entries_length base_addr num : ℕ) (memory : ℕ → ℕ)
    → (entries_length + 7) / 8 + 1 ≤ fuel
    → (n : ℕ) × (count_loop fuel entries_length base_addr num memory ≡ some n)
unfolding count_loop
count_loop-ends zero entries_length base_addr num memory h = absurd (omega arith)
count_loop-ends (suc fuel) entries_length base_addr num memory h =
    elim (Bool-cases (ltb 0 entries_length)) [
      | inl more ↦ elim (Bool-cases (memory base_addr == 0)) [
        | inl cpu ↦
            let (n, e) =
              count_loop-ends fuel (entries_length - 20) (u64 (base_addr + 20)) (u32 (num + 1))
                memory (ground arith) in
            (n, ground (arith, more, cpu, e))
        | inr other ↦
            let (n, e) =
              count_loop-ends fuel (entries_length - 8) (u64 (base_addr + 8)) num memory
                (ground arith) in
            (n, ground (arith, more, other, e))
      ]
      | inr done ↦ (num, ground (arith, done))
    ]

-- The types of the entries of a table; one of a processor has twenty bytes, another has eight.
abbrev pub entry_size : ℕ → ℕ
entry_size entry_type = if entry_type == 0 then 20 else 8

abbrev pub total_size : List ℕ → ℕ
total_size [] = 0
total_size (t ∷ ts) = entry_size t + total_size ts

-- Entries of these types lie behind one another from an address on.
abbrev pub AreEntries : (ℕ → ℕ) → ℕ → List ℕ → Type 0
AreEntries memory a [] = Unit
AreEntries memory a (t ∷ ts) = (memory a ≡ t) × AreEntries memory (a + entry_size t) ts

abbrev pub processors : List ℕ → ℕ
processors ts = length (filter (λ t. t == 0) ts)

cpu_step :
    (fuel entries_length base_addr num : ℕ) (memory : ℕ → ℕ)
    → 0 < entries_length
    → memory base_addr ≡ 0
    → count_loop (suc fuel) entries_length base_addr num memory
      ≡ count_loop fuel (entries_length - 20) (u64 (base_addr + 20)) (u32 (num + 1)) memory
unfolding count_loop
cpu_step fuel entries_length base_addr num memory more e =
    let m : ltb 0 entries_length ≡ true = ground arith in
    let c : (memory base_addr == 0) ≡ true = ground arith in rw (count_loop, m, c) refl

other_step :
    (fuel entries_length base_addr num : ℕ) (memory : ℕ → ℕ)
    → 0 < entries_length
    → memory base_addr ≢ 0
    → count_loop (suc fuel) entries_length base_addr num memory
      ≡ count_loop fuel (entries_length - 8) (u64 (base_addr + 8)) num memory
unfolding count_loop
other_step fuel entries_length base_addr num memory more ne =
    let m : ltb 0 entries_length ≡ true = ground arith in
    let c : (memory base_addr == 0) ≡ false = ground (arith, ne) in rw (count_loop, m, c) refl

ended : (base_addr num : ℕ) (memory : ℕ → ℕ) → count_loop 1 0 base_addr num memory ≡ some num
unfolding count_loop
ended base_addr num memory = refl

count_cong :
    (fuel : ℕ) (memory : ℕ → ℕ) {l l' b b' n n' : ℕ}
    → l ≡ l'
    → b ≡ b'
    → n ≡ n'
    → count_loop fuel l b n memory ≡ count_loop fuel l' b' n' memory
count_cong fuel memory p q r = cc (p, q, r)

-- On a table whose entries lie in memory as its length says, the loop ends after a round for each entry
-- and one more, with the number of the processors among them.
pub count_loop-processors :
    (types : List ℕ) (base_addr num : ℕ) (memory : ℕ → ℕ)
    → AreEntries memory base_addr types
    → base_addr + total_size types < 2 ^ 64
    → num + length types < 2 ^ 32
    → count_loop (suc (length types)) (total_size types) base_addr num memory
      ≡ some (num + processors types)
count_loop-processors [] base_addr num memory h small few = ends
  where
    ends : count_loop 1 0 base_addr num memory ≡ some (num + 0)
    ends = ended base_addr num memory ∙ ap some (omega arith)
count_loop-processors (t ∷ types) base_addr num memory (e, h) small few =
    elim (Bool-cases (t == 0)) [
      | inl cpu ↦
          let size : entry_size t ≡ 20 = rw cpu refl in
          cpu_step _ _ base_addr num memory (omega (arith, size)) (ground (arith, e))
          ∙ count_cong _ memory (omega (arith, size)) (omega (arith, size)) (omega arith)
          ∙ count_loop-processors types (base_addr + 20) (num + 1) memory (ap_entries size h)
              (omega (arith, size)) (omega arith)
          ∙ ap some (ground (arith, cpu))
      | inr other ↦
          let size : entry_size t ≡ 8 = rw other refl in
          other_step _ _ base_addr num memory (omega (arith, size)) (λ z. ground (arith, e, other))
          ∙ count_cong _ memory (omega (arith, size)) (omega (arith, size)) refl
          ∙ count_loop-processors types (base_addr + 8) num memory (ap_entries size h)
              (omega (arith, size)) (omega arith)
          ∙ ap some (ground (arith, other))
    ]
  where
    ap_entries :
        {n : ℕ}
        → entry_size t ≡ n
        → AreEntries memory (base_addr + entry_size t) types
        → AreEntries memory (base_addr + n) types
    ap_entries p x = subst (λ k. AreEntries memory (base_addr + k) types) p x
