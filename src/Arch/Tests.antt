-- ===== src/Arch/Tests.antt =====
-- The x86_64 modules on concrete values: a machine whose state is its last two writes and its I/O APIC.
use urchin.Prelude.{
  ◌/◌, ℕ, ◌+◌, ◌*◌, ◌^◌, ◌≡◌, refl, arith, [], ◌∷◌, some, ◌==◌, if◌then◌else◌, replicate, get_or,
  u64, length-replicate, ltb,
}
use urchin.Arch.Io.{Machine}
use urchin.Arch.Apic.{ioapic_addr, idt_loop, new_entry}
use urchin.Arch.Apic.Entries.{IsGate, idt_loop-IsGate}
use urchin.Arch.Apic.Redirect.{IsIoapic}
use urchin.Arch.Kvmclock.{PvClockVcpuTimeInfo, time_loop, get_monotonic_time}
use urchin.Arch.Kvmclock.Snapshot.{IsSnapshot, time_loop-IsSnapshot}
use urchin.Arch.Kvmclock.Update.{clock_turns_back}
use urchin.Arch.Mptable.{count_loop}
use urchin.Arch.Mptable.Count.{count_loop-processors}

-- The register that is selected, the registers of the I/O APIC, and the halves of the last write to a
-- model-specific register.
pub record Board : Type 0 where
  pub selected : ℕ
  pub registers : ℕ → ℕ
  pub msr : ℕ × ℕ

abbrev pub board : Board
board = record { selected = 0; registers = λ r. 7; msr = (0, 0) }

abbrev pub board_machine : Machine Board
board_machine = record {
  read32 = λ addr r. r.registers r.selected;
  write32 = λ addr v r.
      if addr == ioapic_addr
      then record r { selected = v }
      else record r { registers = λ j. if j == r.selected then v else r.registers j };
  out_insn = λ port v r. r;
  in_insn = λ port r. (0, r);
  wrmsr_insn = λ reg lo hi r. record r { msr = (hi, lo) };
  rdmsr_insn = λ reg r. r.msr;
  rdtsc_insn = λ r. (0, 0);
  kvm_features = λ r. 0;
  elapse = λ r. r;
}

pub board-IsIoapic : IsIoapic board_machine (λ r. r.registers)
board-IsIoapic = record {
  stores = λ reg v r. ground arith;
  keeps = λ reg v j r ne. ground (arith, ne);
}

idt_loop-IsGate_example :
    IsGate
      (u64 (0x10_0000 + 0x10 * 48))
      (get_or (idt_loop 256 0 0x10_0000 (replicate 256 new_entry)) 48 new_entry)
idt_loop-IsGate_example =
    idt_loop-IsGate 0x10_0000 (replicate 256 new_entry) (length-replicate 256 new_entry) 48
      (omega arith)

-- A page that the host is at work on at the first round.
abbrev page_reads : ℕ → PvClockVcpuTimeInfo
page_reads n = record {
  version = if ltb n 2 then 3 else 4;
  tsc_timestamp = 1000;
  system_time = 9;
  tsc_to_system_mul = 2 ^ 31;
  tsc_shift = 0;
}

time_loop-IsSnapshot_example :
    (time : ℕ) × (time_loop 2 5000 page_reads 0 ≡ some time) × IsSnapshot 5000 page_reads time
time_loop-IsSnapshot_example =
    time_loop-IsSnapshot 5000 page_reads
      (record { grows = λ n. ground arith; fits = λ n. ground arith }) 1 0 refl refl

-- Two processors, an entry of another type between them.
abbrev table_memory : ℕ → ℕ
table_memory a = if a == 120 then 2 else 0

count_loop-processors_example : count_loop 4 48 100 0 table_memory ≡ some 2
count_loop-processors_example =
    count_loop-processors (0 ∷ 2 ∷ 0 ∷ []) 100 0 table_memory (refl, (refl, (refl, tt)))
      (omega arith) (omega arith)

-- A page that is at rest, and the page that the host writes later, at the tick 5000.
abbrev quiet_page : PvClockVcpuTimeInfo
quiet_page = page_reads 2

abbrev updated_page : PvClockVcpuTimeInfo
updated_page = record quiet_page { version = 6; tsc_timestamp = 5000; system_time = 2009 }

clock_turns_back_example :
    (get_monotonic_time 2 4000 (λ k. quiet_page) ≡ some (3000 * 2 ^ 0 * 2 ^ 31 / 2 ^ 32))
    × (get_monotonic_time 2 5000 (λ k. updated_page) ≡ some 0)
clock_turns_back_example =
    clock_turns_back 1 4000 5000 quiet_page updated_page
      (record { even = refl; fits = omega arith }) (omega arith) (omega arith) (omega arith)
      (omega arith) (omega arith) (omega arith) (record { even = refl; fits = omega arith }) refl
      (omega arith) (omega arith)
