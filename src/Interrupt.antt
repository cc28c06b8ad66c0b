-- ===== src/Interrupt.antt =====
-- src/interrupt.rs, and the entry `interrupt_handler` of src/lib.rs that the code of the vectors calls.
-- What a handler does is a parameter: `get_irq` and `handle`, of the trait `Interruptable`, on a state of
-- the kernel.
pub mod Dispatch
pub mod Kept
mod Tests
use urchin.Prelude.{
  ℕ, ◌-◌, List, [], ◌∷◌, Option, none, some, Bool, true, false, leb, if◌then◌else◌, get_or, set,
  replicate, ◌>>=◌,
}
use urchin.Arch.Io.{Machine}
use urchin.Arch.Apic.{Apic, enable_irq, disable_irq, ack_irq}
use urchin.Asynchronous.ArrayQueue.{ArrayQueue}
use urchin.Asynchronous.Timer.{Timers, check_timerfutures_from_interrupt}

pub record IrqHandler (H : Type 0) : Type 0 where
  pub handlers : List (Option H)

abbrev pub new : {H : Type 0} → IrqHandler H
new = record { handlers = replicate 256 none }

abbrev pub get_handler : {H : Type 0} → ℕ → IrqHandler H → Option H
get_handler irq t = get_or t.handlers irq none

-- `IRQ_HANDLERS`, the interrupt hardware, whether interrupts are enabled, and the rest of the kernel.
pub record Cpu (R : Type 0) (H : Type 0) (W : Type 0) : Type 0 where
  pub irq_handlers : IrqHandler H
  pub apic : Apic R
  pub enabled : Bool
  pub world : W

abbrev pub enable_interrupt : {R : Type 0} {H : Type 0} {W : Type 0} → Cpu R H W → Cpu R H W
enable_interrupt c = record c { enabled = true }

abbrev pub disable_interrupt : {R : Type 0} {H : Type 0} {W : Type 0} → Cpu R H W → Cpu R H W
disable_interrupt c = record c { enabled = false }

module _ {R : Type 0} {H : Type 0} {W : Type 0} (machine : Machine R) (get_irq : H → ℕ) where
  unfoldable pub set_handler : H → Cpu R H W → Cpu R H W
  set_handler handler c = record c {
    irq_handlers = record {
      handlers = set c.irq_handlers.handlers (get_irq handler) (some handler);
    };
    apic = enable_irq machine (get_irq handler) c.apic;
  }

  pub unset_handler : ℕ → Cpu R H W → Cpu R H W
  unset_handler irq c = record c {
    irq_handlers = record { handlers = set c.irq_handlers.handlers irq none };
    apic = disable_irq machine irq c.apic;
  }

  module _ (handle : H → W → Option W) where
    -- `none` is a panic of the handler.
    pub irq_handler : ℕ → Cpu R H W → Option (Cpu R H W)
    irq_handler irq c =
        let c' = disable_interrupt (record c { apic = ack_irq machine c.apic }) in
        elim (get_handler irq c.irq_handlers) [
          | none ↦ some c'
          | some handler ↦ handle handler c'.world >>= λ w. some (record c' { world = w })
        ]

    -- The exceptions panic; a vector between them and the lines of the I/O APIC is passed over.
    pub interrupt_handler : ℕ → Cpu R H W → Option (Cpu R H W)
    unfolding irq_handler
    interrupt_handler intvec c =
        if leb intvec 20
        then none
        else if leb 48 intvec
        then irq_handler (intvec - 48) c
        else some c

-- `Timer`, which is told the time of the clock.
abbrev pub timer_irq : ℕ
timer_irq = 0

abbrev pub timer_handler : {Q : Type 0} → ArrayQueue Q ℕ → ℕ → Timers Q → Option (Timers Q)
timer_handler queue nowtime = check_timerfutures_from_interrupt queue nowtime
