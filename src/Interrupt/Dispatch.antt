-- ===== src/Interrupt/Dispatch.antt =====
-- An interrupt line leads to its handler and to no other.
use mathlib.Core.Path.{subst}
use urchin.Prelude.{
  ℕ, ◌+◌, ◌-◌, ◌<◌, ◌≤◌, ◌≡◌, ◌≢◌, refl, arith, ap, sym, ◌∙◌, Option, none, some, false,
  length-replicate, get_or-replicate, length, length-set, Bool-cases, inl, inr, ◌==◌,
  get_or-set_self, get_or-set_ne, ◌>>=◌,
}
use urchin.Arch.Io.{Machine}
use urchin.Arch.Apic.{Apic, ack_irq, enable_irq, disable_irq, vector_irq_base, mask_loop}
use urchin.Arch.Apic.Redirect.{IsIoapic, IsEntry, enable_disable_lem, mask_loop-masks}
use urchin.Interrupt.{
  Cpu, new, get_handler, set_handler, unset_handler, irq_handler, interrupt_handler,
}

module _ {R : Type 0} {H : Type 0} {W : Type 0} (machine : Machine R) (get_irq : H → ℕ)
    (handle : H → W → Option W) (entries : R → ℕ → ℕ) (ioapic : IsIoapic machine entries)
    (lines : ℕ) (few : lines ≤ 120) where
  -- The vector of a line is taken to the handler of that line.
  vector_lem :
      (irq : ℕ) (c : Cpu R H W)
      → interrupt_handler machine get_irq handle (vector_irq_base + irq) c
        ≡ irq_handler machine get_irq handle irq c
  unfolding interrupt_handler
  vector_lem irq c = ground (arith, back)
    where
      back : vector_irq_base + irq - 48 ≡ irq
      back = omega arith

  -- A line with a handler is sent to its vector, a line without one is masked.
  pub Wired : ℕ → Apic R → Option H → Type 0
  Wired irq a none = IsEntry machine entries ioapic irq 0x10000 0 a
  Wired irq a (some handler) =
      (get_irq handler ≡ irq) × IsEntry machine entries ioapic irq (vector_irq_base + irq) 0 a

  pub record IsWired (c : Cpu R H W) : Type 0 where
    pub size : length c.irq_handlers.handlers ≡ 256
    pub wired : (irq : ℕ) → irq < lines → Wired irq c.apic (get_handler irq c.irq_handlers)

  -- A change of one line leaves the others wired.
  other_Wired :
      (irq other : ℕ) (a : Apic R)
      → irq < 120
      → other < 120
      → other ≢ irq
      → (o : Option H) → Wired other a o
      → Wired other (enable_irq machine irq a) o × Wired other (disable_irq machine irq a) o
  unfolding Wired
  other_Wired irq other a h h' ne none e =
      (enable_disable_lem machine entries ioapic irq a h).2 other 0x10000 0 h' ne e
  other_Wired irq other a h h' ne (some handler) (e, entry) =
      let kept =
        (enable_disable_lem machine entries ioapic irq a h).2 other (vector_irq_base + other) 0 h'
          ne entry in
      ((e, kept.0), (e, kept.1))

  set_handler-IsWired :
      (handler : H) (c : Cpu R H W)
      → get_irq handler < lines
      → IsWired c
      → IsWired (set_handler machine get_irq handler c)
  unfolding set_handler Wired
  set_handler-IsWired handler c small h = record {
    size = length-set c.irq_handlers.handlers (get_irq handler) (some handler) ∙ h.size;
    wired = λ irq lt. elim (Bool-cases (irq == get_irq handler)) [
      | inl same ↦
          let at : irq ≡ get_irq handler = ground arith in
          rw
            (
              at,
              get_or-set_self c.irq_handlers.handlers (get_irq handler) (some handler) none
                  (omega (arith, h.size)),
            )
            (
              refl,
              (enable_disable_lem machine entries ioapic (get_irq handler) c.apic (omega arith)).0,
            )
      | inr other ↦
          let ne : irq ≢ get_irq handler = λ e. ground (arith, other, e) in
          rw
            (get_or-set_ne c.irq_handlers.handlers (get_irq handler) irq (some handler) none
              (λ e. ne (sym e)))
            (other_Wired (get_irq handler) irq c.apic (omega arith) (omega arith) ne _
              (h.wired irq lt)).0
    ];
  }

  unset_handler-IsWired :
      (irq : ℕ) (c : Cpu R H W)
      → irq < lines
      → IsWired c
      → IsWired (unset_handler machine get_irq irq c)
  unfolding unset_handler Wired
  unset_handler-IsWired line c small h = record {
    size = length-set c.irq_handlers.handlers line none ∙ h.size;
    wired = λ irq lt. elim (Bool-cases (irq == line)) [
      | inl same ↦
          let at : irq ≡ line = ground arith in
          rw (at, get_or-set_self c.irq_handlers.handlers line none none (omega (arith, h.size)))
            (enable_disable_lem machine entries ioapic line c.apic (omega arith)).1
      | inr other ↦
          let ne : irq ≢ line = λ e. ground (arith, other, e) in
          rw (get_or-set_ne c.irq_handlers.handlers line irq none none (λ e. ne (sym e)))
            (other_Wired line irq c.apic (omega arith) (omega arith) ne _ (h.wired irq lt)).1
    ];
  }

  -- Once every line is masked and none has a handler, setting and unsetting handlers of the lines keeps
  -- them wired: a line is sent to the vector of its number while it has a handler, which is one for that
  -- number, and is masked while it has none.
  pub lines_stay-IsWired :
      ((c : Cpu R H W)
        → c.irq_handlers ≡ new
        → IsWired (record c { apic = mask_loop machine lines 0 c.apic }))
      × ((handler : H) (c : Cpu R H W)
          → get_irq handler < lines
          → IsWired c
          → IsWired (set_handler machine get_irq handler c))
      × ((irq : ℕ) (c : Cpu R H W)
          → irq < lines
          → IsWired c
          → IsWired (unset_handler machine get_irq irq c))
  unfolding Wired
  lines_stay-IsWired = (
    λ c fresh. record {
      size = ap (λ t. length t.handlers) fresh ∙ length-replicate {A = Option H} 256 none;
      wired = λ irq lt.
          subst (Wired irq (mask_loop machine lines 0 c.apic))
            (sym (ap (λ t. get_handler irq t) fresh ∙ get_or-replicate 256 irq none))
            (mask_loop-masks machine entries ioapic lines c.apic few irq lt);
    },
    set_handler-IsWired,
    unset_handler-IsWired,
  )

  -- Where the lines are wired, the vector that the I/O APIC sends for a line of a handler runs that handler
  -- and no other, with the interrupt acknowledged and interrupts disabled, and panics only where it does.
  pub dispatch_lem :
      (irq vector : ℕ) (handler : H) (c : Cpu R H W)
      → irq < lines
      → IsWired c
      → get_handler irq c.irq_handlers ≡ some handler
      → IsEntry machine entries ioapic irq vector 0 c.apic
      → (get_irq handler ≡ irq)
        × (interrupt_handler machine get_irq handle vector c ≡ (
            handle handler c.world >>= λ w.
            some (record c { apic = ack_irq machine c.apic; enabled = false; world = w })))
  unfolding irq_handler Wired
  dispatch_lem irq vector handler c small h set_there entry =
      let (own, wired) = subst (Wired irq c.apic) set_there (h.wired irq small) in
      let same : vector ≡ vector_irq_base + irq = sym entry.low_word ∙ wired.low_word in
      (own, rw same (vector_lem irq c ∙ rw (irq_handler, set_there) refl))
