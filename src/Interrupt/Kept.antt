-- ===== src/Interrupt/Kept.antt =====
-- What an interrupt changes: the world as one handler does, and neither the table of the handlers.
use mathlib.Core.Path.{subst}
use urchin.Prelude.{
  ℕ, ◌+◌, ◌-◌, ◌≡◌, arith, sym, some, leb, Bool-cases, Option-cases, inl, inr, ◌⊎◌, Option, false,
}
use urchin.Arch.Io.{Machine}
use urchin.Arch.Apic.{ack_irq, vector_irq_base}
use urchin.Interrupt.{Cpu, get_handler, irq_handler, interrupt_handler}

module _ {R : Type 0} {H : Type 0} {W : Type 0} (machine : Machine R) (get_irq : H → ℕ)
    (handle : H → W → Option W) where
  pub record IsHandled (c c' : Cpu R H W) : Type 0 where
    pub table : c'.irq_handlers ≡ c.irq_handlers
    pub world : (c'.world ≡ c.world) ⊎ ((h : H) × (handle h c.world ≡ some c'.world))

  irq_handler_lem :
      (irq : ℕ) (c c' : Cpu R H W)
      → irq_handler machine get_irq handle irq c ≡ some c'
      → IsHandled c c'
  unfolding irq_handler
  irq_handler_lem irq c c' returned = elim (Option-cases (get_handler irq c.irq_handlers)) [
    | inl gone ↦ record {
      table = ground (arith, gone, returned);
      world = inl (ground (arith, gone, returned));
    }
    | inr (h, there) ↦ elim (Option-cases (handle h c.world)) [
      | inl panics ↦ absurd (ground (arith, there, panics, returned))
      | inr (w, handled) ↦ record {
        table = ground (arith, there, handled, returned);
        world = inr (h, ground (arith, there, handled, returned));
      }
    ]
  ]

  pub interrupt_handler-IsHandled :
      (intvec : ℕ) (c c' : Cpu R H W)
      → interrupt_handler machine get_irq handle intvec c ≡ some c'
      → IsHandled c c'
  unfolding interrupt_handler
  interrupt_handler-IsHandled intvec c c' returned = elim (Bool-cases (leb intvec 20)) [
    | inl exception ↦ absurd (ground (arith, exception, returned))
    | inr other ↦ elim (Bool-cases (leb 48 intvec)) [
      | inl line ↦ irq_handler_lem (intvec - 48) c c' (ground (arith, other, line, returned))
      | inr between ↦ record {
        table = ground (arith, other, between, returned);
        world = inl (ground (arith, other, between, returned));
      }
    ]
  ]

  -- What every handler keeps of the world, an interrupt keeps.
  pub interrupt_handler-keeps :
      (P : W → Type 0)
      → ((h : H) (w w' : W) → handle h w ≡ some w' → P w → P w')
      → (intvec : ℕ) (c c' : Cpu R H W)
      → interrupt_handler machine get_irq handle intvec c ≡ some c'
      → P c.world
      → P c'.world
  interrupt_handler-keeps P keeps intvec c c' returned p =
      elim (interrupt_handler-IsHandled intvec c c' returned).world [
        | inl same ↦ subst P (sym same) p
        | inr (h, handled) ↦ keeps h c.world c'.world handled p
      ]

  -- The vector of a line with a handler runs that handler.
  pub interrupt_handler_lem :
      (irq : ℕ) (c : Cpu R H W) (h : H) (w : W)
      → get_handler irq c.irq_handlers ≡ some h
      → handle h c.world ≡ some w
      → interrupt_handler machine get_irq handle (vector_irq_base + irq) c
        ≡ some (record c { apic = ack_irq machine c.apic; enabled = false; world = w })
  unfolding interrupt_handler irq_handler
  interrupt_handler_lem irq c h w there handled = ground (arith, back, there, handled)
    where
      back : vector_irq_base + irq - 48 ≡ irq
      back = omega arith
