-- ===== src/Arch/Mptable.antt =====
-- src/arch/x86_64/mptable.rs: the search for the table of processors, and the loop that counts them. The
-- memory is a function from addresses to bytes.
pub mod Count
use urchin.Prelude.{
  ℕ, zero, suc, ◌+◌, ◌-◌, ◌*◌, ◌/◌, ◌%◌, ◌^◌, List, [], ◌∷◌, Option, none, some, Bool, true, false,
  ◌==◌, ◌&&◌, ltb, if◌then◌else◌, u16, u32, u64, sub_u16,
}

-- Little-endian words of memory.
abbrev pub word16 : (ℕ → ℕ) → ℕ → ℕ
word16 memory a = memory a + memory (a + 1) * 2 ^ 8

abbrev pub word32 : (ℕ → ℕ) → ℕ → ℕ
word32 memory a = word16 memory a + word16 memory (a + 2) * 2 ^ 16

-- Four bytes of a signature.
abbrev pub has_signature : (ℕ → ℕ) → ℕ → ℕ → ℕ → ℕ → ℕ → Bool
has_signature memory a b₀ b₁ b₂ b₃ =
    (memory a == b₀) && (memory (a + 1) == b₁) && (memory (a + 2) == b₂) && (memory (a + 3) == b₃)

-- The candidates from the number `i` on: the address of the table.
pub find_loop : ℕ → ℕ → ℕ → (ℕ → ℕ) → Option ℕ
find_loop zero i base_addr memory = none
find_loop (suc left) i base_addr memory =
    let mpf_candidate = u32 (base_addr + u32 (i * 16)) in
    let mp_candidate = word32 memory (mpf_candidate + 4) in
    let later = find_loop left (i + 1) base_addr memory in
    if has_signature memory mpf_candidate 95 77 80 95
    then (if has_signature memory mp_candidate 80 67 77 80 then some mp_candidate else later)
    else later

pub find_mp_table : ℕ → ℕ → (ℕ → ℕ) → Option ℕ
unfolding find_loop
find_mp_table base_addr length memory = find_loop (length / 16) 0 base_addr memory

-- The loop over the entries: a length at or below zero ends it. `none` is a loop that still runs.
pub count_loop : ℕ → ℕ → ℕ → ℕ → (ℕ → ℕ) → Option ℕ
count_loop zero entries_length base_addr num_of_cpus memory = none
count_loop (suc fuel) entries_length base_addr num_of_cpus memory =
    let cpu =
      count_loop fuel (entries_length - 20) (u64 (base_addr + 20)) (u32 (num_of_cpus + 1)) memory in
    let other = count_loop fuel (entries_length - 8) (u64 (base_addr + 8)) num_of_cpus memory in
    if ltb 0 entries_length
    then (if memory base_addr == 0 then cpu else other)
    else some num_of_cpus

-- `get_mp_table`: the number of processors that it prints.
pub get_mp_table : ℕ → (ℕ → ℕ) → Option ℕ
unfolding find_mp_table count_loop
get_mp_table fuel memory =
    let at = elim (find_mp_table (639 * 0x400) 0x400 memory) as (λ x. Option ℕ) [
      | none ↦ find_mp_table 0 0x400 memory
      | some table ↦ some table
    ] in
    elim at [
      | none ↦ some 0
      | some table ↦
          count_loop fuel (sub_u16 (word16 memory (table + 4)) 44) (u64 (table + 44)) 0 memory
    ]
