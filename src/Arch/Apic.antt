-- ===== src/Arch/Apic.antt =====
-- src/arch/x86_64/apic.rs: the interrupt descriptor table, the local APIC with its timer, and the I/O
-- APIC. The time of the clock is a parameter.
pub mod Entries
pub mod Redirect
use urchin.Prelude.{
  ℕ, zero, suc, ◌+◌, ◌-◌, ◌*◌, ◌/◌, ◌%◌, ◌^◌, List, [], ◌∷◌, Option, none, some, Bool, true, false,
  ◌==◌, ltb, if◌then◌else◌, u8, u16, u32, u64, bit_and, bit_or, ◌<<<◌, ◌>>>◌, get_or, set,
  replicate, ◌>>=◌,
}
use urchin.Arch.Io.{Machine, wrmsr, rdmsr}

abbrev pub vector_irq_base : ℕ
vector_irq_base = 48

pub record IdtEntry : Type 0 where
  pub offsetl : ℕ
  pub selector : ℕ
  pub zero_byte : ℕ
  pub attribute : ℕ
  pub offsetm : ℕ
  pub offseth : ℕ
  pub zero2 : ℕ

abbrev pub new_entry : IdtEntry
new_entry = record {
  offsetl = 0;
  selector = 0;
  zero_byte = 0;
  attribute = 0;
  offsetm = 0;
  offseth = 0;
  zero2 = 0;
}

pub set_offset : ℕ → IdtEntry → IdtEntry
set_offset offset e = record e {
  offsetl = u16 (bit_and offset 0x0000_0000_0000_ffff >>> 0);
  offsetm = u16 (bit_and offset 0x0000_0000_ffff_0000 >>> 16);
  offseth = u32 (bit_and offset 0xffff_ffff_0000_0000 >>> 32);
  attribute = 0x8e;
  selector = 8;
}

pub record IdtRegister : Type 0 where
  pub limit : ℕ
  pub base : ℕ

-- The machine, and the statics of the module.
pub record Apic (R : Type 0) : Type 0 where
  pub machine : R
  pub idt : List IdtEntry
  pub idtr : IdtRegister
  pub kvm_pv_eoi : List ℕ

abbrev pub new : {R : Type 0} → R → Apic R
new machine = record {
  machine = machine;
  idt = replicate 256 new_entry;
  idtr = record { limit = 0; base = 0 };
  kvm_pv_eoi = replicate 256 0;
}

abbrev pub ioapic_addr : ℕ
ioapic_addr = 0xfec0_0000

pub ioapic_reg_low : ℕ → ℕ
ioapic_reg_low n = u8 (0x10 + u8 (n * 2))

pub ioapic_reg_high : ℕ → ℕ
ioapic_reg_high n = u8 (0x10 + u8 (n * 2) + 1)

-- The entries of the descriptor table from the number `i` on.
pub idt_loop : ℕ → ℕ → ℕ → List IdtEntry → List IdtEntry
unfolding set_offset
idt_loop zero i interrupt_handlers idt = idt
idt_loop (suc left) i interrupt_handlers idt =
    idt_loop left (i + 1) interrupt_handlers
      (set idt i (set_offset (u64 (interrupt_handlers + 0x10 * i)) (get_or idt i new_entry)))

module _ {R : Type 0} (machine : Machine R) where
  abbrev pub write : ℕ → ℕ → Apic R → Apic R
  write addr val a = record a { machine = machine.write32 addr val a.machine }

  abbrev pub wrmsr_on : ℕ → ℕ → Apic R → Apic R
  wrmsr_on reg val a = record a { machine = wrmsr machine reg val a.machine }

  abbrev pub outb_on : ℕ → ℕ → Apic R → Apic R
  outb_on port val a = record a { machine = machine.out_insn port val a.machine }

  pub get_lapic_id : Apic R → ℕ
  get_lapic_id a = u8 (machine.read32 0xfee0_0020 a.machine >>> 24)

  -- The register is selected, and read.
  pub ioapic_read : ℕ → Apic R → ℕ × Apic R
  ioapic_read reg a =
      let a' = write ioapic_addr reg a in (machine.read32 (ioapic_addr + 0x10) a'.machine, a')

  pub ioapic_write : ℕ → ℕ → Apic R → Apic R
  ioapic_write reg data_word a = write (ioapic_addr + 0x10) data_word (write ioapic_addr reg a)

  pub enable_irq : ℕ → Apic R → Apic R
  unfolding ioapic_write ioapic_reg_high ioapic_reg_low
  enable_irq irq a =
      ioapic_write (ioapic_reg_low irq) (vector_irq_base + irq)
        (ioapic_write (ioapic_reg_high irq) 0 a)

  pub disable_irq : ℕ → Apic R → Apic R
  unfolding ioapic_write ioapic_reg_high ioapic_reg_low
  disable_irq irq a =
      ioapic_write (ioapic_reg_low irq) (1 <<< 16) (ioapic_write (ioapic_reg_high irq) 0 a)

  -- `btr` clears the lowest bit, and gives it; where it was clear the local APIC is told.
  pub ack_irq : Apic R → Apic R
  unfolding get_lapic_id
  ack_irq a =
      let id = get_lapic_id a in
      let word = get_or a.kvm_pv_eoi id 0 in
      let cleared = record a { kvm_pv_eoi = set a.kvm_pv_eoi id (word - word % 2) } in
      if word % 2 == 0 then write 0xfee0_00b0 0 cleared else cleared

  -- The first `num` entries of the I/O APIC are masked, from the number `i` on.
  pub mask_loop : ℕ → ℕ → Apic R → Apic R
  unfolding ioapic_write ioapic_reg_high ioapic_reg_low
  mask_loop zero i a = a
  mask_loop (suc num) i a =
      mask_loop num (i + 1) (
        ioapic_write (ioapic_reg_low (u8 i)) (1 <<< 16) (ioapic_write (ioapic_reg_high (u8 i)) 0 a))

  pub ioapic_init : Apic R → Apic R
  unfolding mask_loop ioapic_read ack_irq
  ioapic_init a =
      let ready = outb_on 0x0023 0x01 (outb_on 0x0022 0x70 a) in
      let (version, a') = ioapic_read 0x01 ready in
      ack_irq (mask_loop (u32 ((version >>> 16) + 1)) 0 a')

  -- The loop that waits for the timer's count to fall, for at most `fuel` tests.
  pub wait_loop : ℕ → Apic R → Option (Apic R)
  wait_loop zero a = none
  wait_loop (suc fuel) a =
      if ltb (machine.read32 0xfee0_0390 a.machine) 0xfff0_0000
      then some a
      else wait_loop fuel (record a { machine = machine.elapse a.machine })

  -- The timer's period is measured by the clock; `none` where the loop does not end or the assertion
  -- fails.
  pub init_timer : (R → ℕ) → ℕ → Apic R → Option (Apic R)
  unfolding wait_loop
  init_timer get_monotonic_time fuel a = do
    let started = write 0xfee0_03e0 0x03 (write 0xfee0_0380 0xffff_ffff a)
    waited ← wait_loop fuel started
    let before = get_monotonic_time started.machine
    let time_after = get_monotonic_time waited.machine
    let base_cnt = (2 * 1_000_000_000 / 1_000) * 0xf_ffff / (time_after - before)
    if ltb before time_after
        then some (
            write 0xfee0_0320 (bit_or (vector_irq_base + 0) 0x20000)
              (write 0xfee0_0380 (u32 base_cnt) waited))
        else none

  -- `init`; the addresses of the code of the handlers, of the table and of `KVM_PV_EOI` are arguments.
  unfoldable pub init : (R → ℕ) → ℕ → ℕ → ℕ → ℕ → Apic R → Option (Apic R)
  unfolding init_timer idt_loop ioapic_init get_lapic_id
  init get_monotonic_time fuel interrupt_handlers idt_addr eoi_addr a = do
    let no_pic = outb_on 0x0021 0xff (outb_on 0x00a1 0xff a)
    let enabled =
        wrmsr_on 0x1b (bit_or (bit_and (rdmsr machine 0x1b no_pic.machine) 0xffff_f100) 0x0800)
          no_pic
    let quiet = write 0xfee0_0370 (1 <<< 16) (
        write 0xfee0_0320 (1 <<< 16) (
          write 0xfee0_00e0 0xffff_ffff (
            write 0xfee0_00d0 0x0100_0000
              (write 0xfee0_0080 0 (write 0xfee0_00f0 (1 <<< 8) enabled)))))
    timed ← init_timer get_monotonic_time fuel quiet
    let with_idt = record timed {
      idt = idt_loop 256 0 interrupt_handlers timed.idt;
      idtr = record { limit = 16 * 256 - 1; base = idt_addr };
    }
    let with_eoi =
        if bit_and (machine.kvm_features with_idt.machine) (1 <<< 6) == 0
        then with_idt
        else wrmsr_on 0x4b56_4d04 (bit_or (u64 (eoi_addr + 4 * get_lapic_id with_idt)) 1) with_idt
    some (ioapic_init with_eoi)
