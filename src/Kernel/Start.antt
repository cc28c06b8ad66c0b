-- ===== src/Kernel/Start.antt =====
-- `start_rust` of src/lib.rs up to its loop. What it only prints is left out: the memory map, the number of
-- processors, the date and the interfaces.
pub mod Boots
mod Tests
use urchin.Prelude.{
  ℕ, List, [], ◌∷◌, ◌++◌, Option, none, some, Bool, true, false, ◌&&◌, ◌==◌, if◌then◌else◌, length,
  ◌>>=◌,
}
use urchin.Boot.{get_boot_flag, get_header, get_cmdline}
use urchin.Arch.Io.{Machine}
use urchin.Arch.Apic
use urchin.Arch.Kvmclock.{init_kvmclock}
use urchin.Asynchronous.ArrayQueue.{ArrayQueue}
use urchin.Asynchronous.Executor.{Tasks}
use urchin.Devices.Buffer.{Layout}
use urchin.Devices.Serial
use urchin.Devices.Virtqueue.{VirtqueueUsedElement}
use urchin.Devices.VirtioMmio.{Bus, VirtioMmio, mmio_device}
use urchin.Devices.VirtioMmio.Cmdline
use urchin.Devices.VirtioMmio.Cmdline.{NewResult, ok, err}
use urchin.Devices.VirtioNet
use urchin.Devices.VirtioNet.{VirtioNet}
use urchin.Interrupt.{Cpu, set_handler}
use urchin.Net.Ipv4Address
use urchin.Net.Ipv4Address.{Ipv4Address}
use urchin.Kernel.{register_self}
use urchin.Kernel.Network.{Device, Network, netif_of}
use urchin.Kernel.TestTask.{TestTask, spawn_test_tasks}
use urchin.Kernel.MainLoop.{Handler, timer, device, World, irq_of}

-- The assertions on the boot parameters, and the command line or a panic.
pub checked_cmdline : (ℕ → ℕ) → ℕ → Option (List ℕ)
checked_cmdline memory boot_params =
    if (get_boot_flag memory boot_params == 0xaa55)
      && (get_header memory boot_params == 0x5372_6448)
    then get_cmdline memory boot_params
    else none

abbrev pub first_address : Ipv4Address
first_address = Ipv4Address.from_array (192 ∷ 168 ∷ 0 ∷ 10 ∷ [])

abbrev pub second_address : Ipv4Address
second_address = Ipv4Address.from_array (192 ∷ 168 ∷ 10 ∷ 10 ∷ [])

-- The kernel: the table of handlers, the interrupt hardware, the tasks and the network.
abbrev pub Kernel : Type 0 → Type 0 → Type 0 → Type 0
Kernel R B Q = Cpu R (Handler Device) (World Q (Network (VirtioMmio B)))

-- `Executor::new`; no timer is registered yet.
abbrev pub new_executor : {Q : Type 0} → Q → Tasks Q TestTask → Tasks Q TestTask
new_executor empty e = record {
  futures = λ i. none;
  next_task = 0;
  timers = record e.timers { tasks = empty };
}

module _ {R : Type 0} {B : Type 0} {Q : Type 0} (machine : Machine R) (bus : Bus B)
    (queue : ArrayQueue Q ℕ) (nowtime : ℕ → ℕ) (pointer : ℕ → ℕ → Layout → ℕ)
    (fill : ℕ → ℕ → Layout → List ℕ) (rings : ℕ → ℕ → ℕ → ℕ × List ℕ × List VirtqueueUsedElement)
    (tscnum : ℕ → ℕ) where
  -- The driver of the device of a number, on the transport that the command line names.
  abbrev pub new_driver : ℕ → VirtioMmio B → Option (Option (VirtioNet (VirtioMmio B)))
  new_driver index =
      VirtioNet.new (mmio_device bus) (pointer index) (fill index) (rings index) (tscnum index)
        index

  -- The handler, the interface, and its addresses.
  pub add_driver : VirtioNet (VirtioMmio B) → Ipv4Address → ℕ → Kernel R B Q → Option (Kernel R B Q)
  add_driver inst ipv4addr prefix c =
      let w = c.world.network in
      let arc : Device = record { slot = length w.drivers; irq = inst.virtio.irq } in
      let c' = set_handler machine (irq_of (λ d. d.irq)) (device arc) c in
      register_self (netif_of inst) ipv4addr prefix w.net.tables >>= λ t. some (record c' {
        world = record c.world {
          network = record {
            drivers = w.drivers ++ (inst ∷ []);
            net = record w.net { tables = t };
          };
        };
      })

  -- The closure `setup_virtio_net`; `registers` is what the device of a number shows on the bus.
  pub setup_virtio_net :
      List ℕ → (ℕ → B) → ℕ → Ipv4Address → ℕ → Kernel R B Q → Option (Kernel R B Q)
  unfolding add_driver
  setup_virtio_net cmd registers index ipv4addr prefix c =
      elim (Cmdline.new bus cmd index (registers index)) [
        | err e ↦ none
        | ok virtio_mmio ↦ new_driver index virtio_mmio >>= λ found. elim found [
          | none ↦ some c
          | some inst ↦ add_driver inst ipv4addr prefix c
        ]
      ]

  -- The addresses of the clock's pages, of the code of the vectors, of the descriptor table and of the word
  -- for the end of interrupts are arguments, and so is the fuel of the loop that measures the timer.
  module _ (get_monotonic_time : R → ℕ)
      (fuel wallclock clockinfo interrupt_handlers idt_addr eoi_addr : ℕ) (empty : Q) where
    abbrev pub init_apic : Apic.Apic R → Option (Apic.Apic R)
    init_apic a =
        let r = (Serial.init machine a.machine).1 in
        let r' = (init_kvmclock machine wallclock clockinfo r).1 in
        Apic.init machine get_monotonic_time fuel interrupt_handlers idt_addr eoi_addr
          (record a { machine = r' })

    pub start_rust : (ℕ → ℕ) → ℕ → (ℕ → B) → Kernel R B Q → Option (Kernel R B Q)
    unfolding checked_cmdline setup_virtio_net
    start_rust memory boot_params registers c = do
      cmd ← checked_cmdline memory boot_params
      apic ← init_apic c.apic
      let c₁ = set_handler machine (irq_of (λ d. d.irq)) timer (record c {
        apic = apic;
        world = record c.world { executor = new_executor empty c.world.executor };
      })
      c₂ ← setup_virtio_net cmd registers 0 first_address 24 c₁
      c₃ ← setup_virtio_net cmd registers 1 second_address 24 c₂
      e ← spawn_test_tasks queue nowtime c₃.world.executor
      some (record c₃ { world = record c₃.world { executor = e } })
