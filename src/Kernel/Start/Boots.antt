-- ===== src/Kernel/Start/Boots.antt =====
-- The kernel comes to its loop.
use urchin.Prelude.{
  ℕ, ◌≤◌, ◌<◌, ◌≡◌, ◌≢◌, refl, arith, ap, sym, ◌∙◌, List, [], ◌∷◌, ◌++◌, Option, none, some, length,
  length-set, get_or, set, get_or-set_self, get_or-set_ne,
}
use urchin.Boot.{get_boot_flag, get_header, get_cmdline}
use urchin.Arch.Io.{Machine}
use urchin.Arch.Apic.{Apic}
use urchin.Asynchronous.ArrayQueue.{ArrayQueue, IsBounded}
use urchin.Devices.Buffer.{Layout}
use urchin.Devices.Virtqueue.{VirtqueueUsedElement}
use urchin.Devices.VirtioMmio.{Bus, VirtioMmio, mmio_device}
use urchin.Devices.VirtioMmio.Cmdline
use urchin.Devices.VirtioMmio.Cmdline.{ok}
use urchin.Devices.VirtioNet.{VirtioNet}
use urchin.Interrupt.{get_handler, set_handler, timer_irq}
use urchin.Net.Ipv4Address.{Ipv4Address}
use urchin.Net.Fib.{Tables, empty_tables}
use urchin.Net.Frame.Laws.{bind_some}
use urchin.Kernel.{register_self}
use urchin.Kernel.Routes.{IsReady, IsOther, register_self-IsAdded}
use urchin.Devices.Netif.{Netif}
use urchin.Devices.VirtioNet.Id.{new-id}
use urchin.Net.Ipv4Address
use urchin.Net.Mac.{mac_ord}
use urchin.Net.Ipv4Address.{ipv4_ord}
use urchin.Prelude.Map.{get}
use urchin.Kernel.Network.{Device, netif_of}
use urchin.Kernel.TestTask.Alive.{AllAwake}
use urchin.Kernel.TestTask.Started.{spawn_test_tasks-AllAwake}
use urchin.Kernel.MainLoop.{Handler, timer, device, irq_of}
use urchin.Kernel.Start.{
  Kernel, checked_cmdline, first_address, second_address, new_executor, new_driver, add_driver,
  setup_virtio_net, init_apic, start_rust,
}

checked_cmdline_lem :
    (memory : ℕ → ℕ) (boot_params : ℕ)
    → get_boot_flag memory boot_params ≡ 0xaa55
    → get_header memory boot_params ≡ 0x5372_6448
    → checked_cmdline memory boot_params ≡ get_cmdline memory boot_params
unfolding checked_cmdline
checked_cmdline_lem memory boot_params flag header = rw (flag, header) refl

-- Both addresses are registered in tables that were empty.
two_ready :
    (netif netif' : Netif) (t : Tables)
    → t ≡ empty_tables
    → IsOther netif netif'.macaddr
    → (t₁ : Tables) × (register_self netif first_address 24 t ≡ some t₁)
      × (t₂ : Tables) × (register_self netif' second_address 24 t₁ ≡ some t₂)
      × IsReady netif first_address t₂
      × IsReady netif' second_address t₂
unfolding empty_tables get Ipv4Address.from_array
two_ready netif netif' t no_entry other =
    let (t₁, registered, added) =
      register_self-IsAdded netif first_address 24 t (ap (λ x. length x.ipv4_fib_index) no_entry)
        (ap (λ x. length x.ipv6_fib_index) no_entry) (omega arith) (omega arith) (omega arith)
        (λ j adj e. absurd (ground (arith, e, ap (λ x. get j x.mac_addr_table) no_entry)))
        (ap (λ x. get netif.macaddr x.mac_addr_table) no_entry)
        (ap (λ x. get first_address x.ipv4_adjacent) no_entry) in
    let (t₂, registered', added') =
      register_self-IsAdded netif' second_address 24 t₁ added.ready.tables4 added.ready.tables6
        (omega arith) (omega arith) (omega arith) added.ready.permanent
        (added.macs netif'.macaddr other ∙ ap (λ x. get netif'.macaddr x.mac_addr_table) no_entry)
        (added.ips second_address (λ e. omega arith)
          ∙ ap (λ x. get second_address x.ipv4_adjacent) no_entry) in
    (
      t₁,
      registered,
      t₂,
      registered',
      added'.others netif first_address (λ e. omega arith) added.ready,
      added'.ready,
    )

-- The handlers of three lines, set one after the other.
abbrev three_set : {H : Type 0} → List (Option H) → ℕ → H → ℕ → H → ℕ → H → List (Option H)
three_set hs i a j b k d = set (set (set hs i (some a)) j (some b)) k (some d)

three_set_lem :
    {H : Type 0} (hs : List (Option H)) (i j k : ℕ) (a b d : H)
    → i < length hs
    → j < length hs
    → k < length hs
    → i ≢ j
    → i ≢ k
    → j ≢ k
    → (get_or (three_set hs i a j b k d) i none ≡ some a)
      × (get_or (three_set hs i a j b k d) j none ≡ some b)
      × (get_or (three_set hs i a j b k d) k none ≡ some d)
three_set_lem hs i j k a b d i_in j_in k_in ij ik jk = (
  get_or-set_ne (set (set hs i (some a)) j (some b)) k i (some d) none (λ e. ik (sym e))
      ∙ get_or-set_ne (set hs i (some a)) j i (some b) none (λ e. ij (sym e))
      ∙ get_or-set_self hs i (some a) none i_in,
  get_or-set_ne (set (set hs i (some a)) j (some b)) k j (some d) none (λ e. jk (sym e))
      ∙ get_or-set_self (set hs i (some a)) j (some b) none
          (omega (arith, length-set hs i (some a), j_in)),
  get_or-set_self (set (set hs i (some a)) j (some b)) k (some d) none
      (omega (arith, length-set (set hs i (some a)) j (some b), length-set hs i (some a), k_in)),
)

abbrev in_slot : ℕ → ℕ → Option (Handler Device)
in_slot irq slot = some (device (record { slot = slot; irq = irq }))

module _ {R : Type 0} {B : Type 0} {Q : Type 0} (machine : Machine R) (bus : Bus B)
    (queue : ArrayQueue Q ℕ) (nowtime : ℕ → ℕ) (pointer : ℕ → ℕ → Layout → ℕ)
    (fill : ℕ → ℕ → Layout → List ℕ) (rings : ℕ → ℕ → ℕ → ℕ × List ℕ × List VirtqueueUsedElement)
    (tscnum : ℕ → ℕ) where
  abbrev arc : VirtioNet (VirtioMmio B) → Kernel R B Q → Device
  arc inst c = record { slot = length c.world.network.drivers; irq = inst.virtio.irq }

  -- The kernel with a driver more, and tables that know its addresses.
  abbrev with_driver : VirtioNet (VirtioMmio B) → Tables → Kernel R B Q → Kernel R B Q
  with_driver inst t c =
      record (set_handler machine (irq_of (λ d. d.irq)) (device (arc inst c)) c) {
        world = record c.world {
          network = record {
            drivers = c.world.network.drivers ++ (inst ∷ []);
            net = record c.world.network.net { tables = t };
          };
        };
      }

  setup_lem :
      (cmd : List ℕ) (registers : ℕ → B) (index : ℕ) (ip : Ipv4Address) (prefix : ℕ)
      (c : Kernel R B Q) (m : VirtioMmio B) (inst : VirtioNet (VirtioMmio B)) (t : Tables)
      → Cmdline.new bus cmd index (registers index) ≡ ok m
      → new_driver machine bus queue nowtime pointer fill rings tscnum index m ≡ some (some inst)
      → register_self (netif_of inst) ip prefix c.world.network.net.tables ≡ some t
      → setup_virtio_net machine bus queue nowtime pointer fill rings tscnum cmd registers index ip
          prefix c
        ≡ some (with_driver inst t c)
  unfolding setup_virtio_net add_driver
  setup_lem cmd registers index ip prefix c m inst t there made registered =
      rw (setup_virtio_net, there, made, add_driver, registered) refl

  module _ (items : Q → List ℕ) (capacity : ℕ) (laws : IsBounded queue items capacity)
      (get_monotonic_time : R → ℕ)
      (fuel wallclock clockinfo interrupt_handlers idt_addr eoi_addr : ℕ) (empty : Q) where
    -- The boot loader has left the right marks and a command line that names two network devices, the
    -- interrupt hardware and both drivers come up, and the lines of the timer and of the devices are three
    -- that have places for their handlers. There is no device, route, neighbour or task yet, and the address
    -- of the second device is none of those that are registered for the first. Then `start_rust` comes to
    -- its loop: the timer and the devices have their handlers, the interfaces are the two drivers in order,
    -- each under the number of its place, the tables know the first as 192.168.0.10 and the second as
    -- 192.168.10.10, so that both are ready to answer, and the two test tasks are awake.
    pub start_rust_lem :
        (memory : ℕ → ℕ) (boot_params : ℕ) (registers : ℕ → B) (c : Kernel R B Q) (cmd : List ℕ)
        (apic : Apic R) (m₀ m₁ : VirtioMmio B) (n₀ n₁ : VirtioNet (VirtioMmio B))
        → get_boot_flag memory boot_params ≡ 0xaa55
        → get_header memory boot_params ≡ 0x5372_6448
        → get_cmdline memory boot_params ≡ some cmd
        → init_apic machine bus queue nowtime pointer fill rings tscnum get_monotonic_time fuel
            wallclock clockinfo interrupt_handlers idt_addr eoi_addr empty c.apic
          ≡ some apic
        → Cmdline.new bus cmd 0 (registers 0) ≡ ok m₀
        → Cmdline.new bus cmd 1 (registers 1) ≡ ok m₁
        → new_driver machine bus queue nowtime pointer fill rings tscnum 0 m₀ ≡ some (some n₀)
        → new_driver machine bus queue nowtime pointer fill rings tscnum 1 m₁ ≡ some (some n₁)
        → n₀.virtio.irq < length c.irq_handlers.handlers
        → n₁.virtio.irq < length c.irq_handlers.handlers
        → timer_irq ≢ n₀.virtio.irq
        → timer_irq ≢ n₁.virtio.irq
        → n₀.virtio.irq ≢ n₁.virtio.irq
        → c.world.network.drivers ≡ []
        → c.world.network.net.tables ≡ empty_tables
        → IsOther (netif_of n₀) n₁.macaddr
        → 2 ≤ capacity
        → items empty ≡ []
        → items c.world.executor.timers.registered ≡ []
        → c.world.executor.timers.next_state ≡ 0
        → (c' : Kernel R B Q) × (start_rust machine bus queue nowtime pointer fill rings tscnum
              get_monotonic_time fuel wallclock clockinfo interrupt_handlers idt_addr eoi_addr empty
              memory boot_params registers c
            ≡ some c')
          × (get_handler timer_irq c'.irq_handlers ≡ some timer)
          × (get_handler n₀.virtio.irq c'.irq_handlers
              ≡ some (device (record { slot = 0; irq = n₀.virtio.irq })))
          × (get_handler n₁.virtio.irq c'.irq_handlers
              ≡ some (device (record { slot = 1; irq = n₁.virtio.irq })))
          × (c'.world.network.drivers ≡ n₀ ∷ n₁ ∷ [])
          × (n₀.id ≡ 0)
          × (n₁.id ≡ 1)
          × IsReady (netif_of n₀) first_address c'.world.network.net.tables
          × IsReady (netif_of n₁) second_address c'.world.network.net.tables
          × AllAwake queue items capacity laws c'.world.executor
    unfolding start_rust set_handler
    start_rust_lem memory boot_params registers c cmd apic m₀ m₁ n₀ n₁ flag header text apic_up
          there₀ there₁ made₀ made₁ in₀ in₁ ne₀ ne₁ ne none_yet no_entry other room no_task no_timer
          no_state =
        let (t, registered, t', registered', ready, ready') =
          two_ready (netif_of n₀) (netif_of n₁) c.world.network.net.tables no_entry other in
        let c₁ : Kernel R B Q = set_handler machine (irq_of (λ d. d.irq)) timer (record c {
          apic = apic;
          world = record c.world { executor = new_executor empty c.world.executor };
        }) in
        let c₂ = with_driver n₀ t c₁ in
        let c₃ = with_driver n₁ t' c₂ in
        let (e, spawned, awake, two) =
          spawn_test_tasks-AllAwake queue items capacity laws nowtime c₃.world.executor room
            (record {
              no_task = no_task;
              no_timer = no_timer;
              no_future = λ i. refl;
              next_task = refl;
              next_state = no_state;
            }) in
        let found =
          three_set_lem c.irq_handlers.handlers timer_irq n₀.virtio.irq n₁.virtio.irq timer
            (device (arc n₀ c₁)) (device (arc n₁ c₂)) (omega arith) in₀ in₁ ne₀ ne₁ ne in
        (
          record c₃ { world = record c₃.world { executor = e } },
          bind_some _ (checked_cmdline_lem memory boot_params flag header ∙ text) (
              bind_some _ apic_up (
                bind_some _
                  (setup_lem cmd registers 0 first_address 24 c₁ m₀ n₀ t there₀ made₀ registered)
                  (bind_some _
                    (setup_lem cmd registers 1 second_address 24 c₂ m₁ n₁ t' there₁ made₁
                      registered')
                    (bind_some _ spawned refl)))),
          found.0,
          found.1 ∙ ap (in_slot n₀.virtio.irq) (ap length none_yet),
          found.2 ∙ ap (in_slot n₁.virtio.irq) (ap (λ l. length (l ++ (n₀ ∷ []))) none_yet),
          ap (λ l. (l ++ (n₀ ∷ [])) ++ (n₁ ∷ [])) none_yet,
          new-id (mmio_device bus) (pointer 0) (fill 0) (rings 0) (tscnum 0) 0 m₀ n₀ made₀,
          new-id (mmio_device bus) (pointer 1) (fill 1) (rings 1) (tscnum 1) 1 m₁ n₁ made₁,
          ready,
          ready',
          awake,
        )
