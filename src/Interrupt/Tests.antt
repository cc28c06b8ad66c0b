-- ===== src/Interrupt/Tests.antt =====
-- A handler that counts its interrupts, on line 5.
use urchin.Prelude.{ℕ, ◌+◌, ◌<◌, ◌≡◌, refl, arith, Option, some, true, false, ◌>>=◌}
use urchin.Arch.Apic
use urchin.Arch.Apic.{Apic, ack_irq, vector_irq_base, mask_loop}
use urchin.Arch.Apic.Redirect.{enable_disable_lem}
use urchin.Arch.Tests.{Board, board, board_machine, board-IsIoapic}
use urchin.Interrupt
use urchin.Interrupt.{Cpu, IrqHandler, get_handler, set_handler, unset_handler, interrupt_handler}
use urchin.Interrupt.Dispatch.{IsWired, lines_stay-IsWired, dispatch_lem}

-- The handler of a line is the number of the line, and counts in the state.
abbrev handle_one : ℕ → ℕ → Option ℕ
handle_one handler count = some (count + 1)

abbrev fresh_cpu : Cpu Board ℕ ℕ
fresh_cpu = record {
  irq_handlers = Interrupt.new;
  apic = Apic.new board;
  enabled = true;
  world = 0;
}

abbrev masked_cpu : Cpu Board ℕ ℕ
masked_cpu = record fresh_cpu { apic = mask_loop board_machine 24 0 (Apic.new board) }

abbrev wired_cpu : Cpu Board ℕ ℕ
wired_cpu = set_handler board_machine (λ h. h) 5 masked_cpu

wired_cpu-IsWired :
    IsWired board_machine
      (λ h. h)
      handle_one
      (λ r. r.registers)
      board-IsIoapic
      24
      (omega arith)
      wired_cpu
wired_cpu-IsWired =
    let stay =
      lines_stay-IsWired board_machine (λ h. h) handle_one (λ r. r.registers) board-IsIoapic 24
        (omega arith) in
    stay.1 5 masked_cpu (omega arith) (stay.0 fresh_cpu refl)

lines_stay-IsWired_example :
    ((c : Cpu Board ℕ ℕ)
      → c.irq_handlers ≡ Interrupt.new
      → IsWired board_machine
          (λ h. h)
          handle_one
          (λ r. r.registers)
          board-IsIoapic
          24
          (omega arith)
          (record c { apic = mask_loop board_machine 24 0 c.apic }))
    × ((handler : ℕ) (c : Cpu Board ℕ ℕ)
        → handler < 24
        → IsWired board_machine
            (λ h. h)
            handle_one
            (λ r. r.registers)
            board-IsIoapic
            24
            (omega arith)
            c
        → IsWired board_machine
            (λ h. h)
            handle_one
            (λ r. r.registers)
            board-IsIoapic
            24
            (omega arith)
            (set_handler board_machine (λ h. h) handler c))
    × ((irq : ℕ) (c : Cpu Board ℕ ℕ)
        → irq < 24
        → IsWired board_machine
            (λ h. h)
            handle_one
            (λ r. r.registers)
            board-IsIoapic
            24
            (omega arith)
            c
        → IsWired board_machine
            (λ h. h)
            handle_one
            (λ r. r.registers)
            board-IsIoapic
            24
            (omega arith)
            (unset_handler board_machine (λ h. h) irq c))
lines_stay-IsWired_example =
    lines_stay-IsWired board_machine (λ h. h) handle_one (λ r. r.registers) board-IsIoapic 24
      (omega arith)

dispatch_lem_example :
    ((λ (h : ℕ). h) 5 ≡ 5)
    × (interrupt_handler board_machine (λ h. h) handle_one 53 wired_cpu ≡ (
        handle_one 5 0 >>= λ w. some (record wired_cpu {
          apic = ack_irq board_machine wired_cpu.apic;
          enabled = false;
          world = w;
        })))
unfolding set_handler
dispatch_lem_example =
    dispatch_lem board_machine (λ h. h) handle_one (λ r. r.registers) board-IsIoapic 24
      (omega arith) 5 53 5 wired_cpu (omega arith) wired_cpu-IsWired refl
      (enable_disable_lem board_machine (λ r. r.registers) board-IsIoapic 5 masked_cpu.apic
        (omega arith)).0
