-- ===== src/Kernel/Start/Tests.antt =====
-- A machine whose state counts what it waits for, and two network devices with queues of four.
use urchin.Prelude.{
  ℕ, ◌+◌, ◌*◌, ◌≡◌, refl, arith, List, [], ◌∷◌, Option, none, some, false, replicate, ◌==◌, ltb,
  if◌then◌else◌,
}
use urchin.Arch.Io.{Machine, wrmsr}
use urchin.Arch.Apic
use urchin.Arch.Apic.{Apic}
use urchin.Arch.Kvmclock.{init_kvmclock}
use urchin.Asynchronous.ArrayQueue.Tests.{list_queue, list_queue-IsBounded}
use urchin.Boot.{get_boot_flag, get_header, get_cmdline}
use urchin.Devices.Buffer
use urchin.Devices.Buffer.{Layout, from_size_align, of_layout, actual_size}
use urchin.Devices.Serial
use urchin.Devices.VirtioMmio.{Bus, VirtioMmio, mmio_device}
use urchin.Devices.VirtioMmio.Cmdline
use urchin.Devices.VirtioMmio.Cmdline.{NewResult, ok, err}
use urchin.Devices.VirtioNet
use urchin.Devices.VirtioNet.{VirtioNet}
use urchin.Devices.VirtioNet.Tests.{busy_net}
use urchin.Devices.Virtqueue
use urchin.Devices.Virtqueue.{VirtqueueUsedElement, push, get_avail_free_size}
use urchin.Interrupt
use urchin.Interrupt.{Cpu, get_handler, timer_irq}
use urchin.Net.Fib.{empty_tables}
use urchin.Net.Mac
use urchin.Kernel.Routes.{IsReady, IsOther}
use urchin.Kernel.Network.{netif_of}
use urchin.Kernel.MainLoop.{timer, device}
use urchin.Kernel.TestTask.Alive.{AllAwake}
use urchin.Kernel.Start.Boots.{start_rust_lem}
use urchin.Kernel.Tests.{boot_text, boot_memory, blank_tables}
use urchin.Kernel.Start.{Kernel, first_address, second_address, new_driver, init_apic, start_rust}

abbrev waiting_machine : Machine ℕ
waiting_machine = record {
  read32 = λ addr r. if (addr == 0xfee0_0390) then (if ltb r 3 then 0xffff_ffff else 0) else 0;
  write32 = λ addr v r. r;
  out_insn = λ port v r. r;
  in_insn = λ port r. (0, r);
  wrmsr_insn = λ reg lo hi r. r;
  rdmsr_insn = λ reg r. (0, 0);
  rdtsc_insn = λ r. (0, 0);
  kvm_features = λ r. 0;
  elapse = λ r. r + 1;
}

-- The registers of a device at an address: the magic number, the version, the type, a queue of four, no
-- queue in use, and the status of an accepted driver.
abbrev net_registers : Bus ℕ
net_registers = record {
  read32 = λ addr base.
      if addr == base
      then 0x7472_6976
      else if addr == base + 0x004
      then 2
      else if addr == base + 0x008
      then 1
      else if addr == base + 0x034
      then 4
      else if addr == base + 0x070
      then 0x0f
      else 0;
  read8 = λ addr base. 0;
  write32 = λ addr v base. base;
}

abbrev device_base : ℕ → ℕ
device_base index = 0xd000_0000 + index * 0x1000

-- The boot parameters of the samples, with their marks.
abbrev marked_memory : ℕ → ℕ
marked_memory a =
    if a == 0x11fe
    then 0x55
    else if a == 0x11ff
    then 0xaa
    else if a == 0x1202
    then 0x48
    else if a == 0x1203
    then 0x64
    else if a == 0x1204
    then 0x72
    else if a == 0x1205
    then 0x53
    else boot_memory a

abbrev clock : ℕ → ℕ
clock n = n * 1000

abbrev pointers : ℕ → ℕ → Layout → ℕ
pointers index i l = 0x50_0000 + index * 0x10_0000 + i * 0x1_0000

abbrev fills : ℕ → ℕ → Layout → List ℕ
fills index i l = []

abbrev test_rings : ℕ → ℕ → ℕ → ℕ × List ℕ × List VirtqueueUsedElement
test_rings index k size = (0x60_0000, replicate size 0, replicate size (record { id = 0; len = 0 }))

abbrev off_kernel : Kernel ℕ ℕ (List ℕ)
off_kernel = record {
  irq_handlers = Interrupt.new;
  apic = Apic.new 0;
  enabled = false;
  world = record {
    executor = record {
      futures = λ i. none;
      next_task = 0;
      timers = record {
        states = λ i. record { completed = false; expired_monotonic = 0; waker = none };
        next_state = 0;
        registered = [];
        tasks = [];
      };
    };
    network = record { drivers = []; net = record { tables = blank_tables; sent = [] } };
  };
}

apic_up : Option (Apic ℕ)
apic_up =
    init_apic waiting_machine net_registers list_queue clock pointers fills test_rings (λ i. i)
      (λ r. r) 10 0 0 0 0 0 [] off_kernel.apic

transport : ℕ → NewResult ℕ
transport index = Cmdline.new net_registers boot_text index (device_base index)

abbrev or_else : {A : Type 0} → A → Option A → A
or_else a none = a
or_else a (some b) = b

abbrev its_transport : NewResult ℕ → VirtioMmio ℕ
its_transport (ok m) = m
its_transport (err e) = record {
  addr = 0;
  size = 0;
  irq = 0;
  indirect_buf_cap = false;
  event_idx_cap = false;
  registers = 0;
}

driver_of : ℕ → Option (Option (VirtioNet (VirtioMmio ℕ)))
driver_of index =
    new_driver waiting_machine net_registers list_queue clock pointers fills test_rings (λ i. i)
      index (its_transport (transport index))

booted_apic : Apic ℕ
booted_apic = or_else off_kernel.apic apic_up

apic_comes_up : apic_up ≡ some booted_apic
unfolding apic_up booted_apic Apic.init Serial.init init_kvmclock wrmsr
apic_comes_up = refl

first_transport : transport 0 ≡ ok (its_transport (transport 0))
unfolding transport Cmdline.new
first_transport = refl

second_transport : transport 1 ≡ ok (its_transport (transport 1))
unfolding transport Cmdline.new
second_transport = refl

abbrev other_net : VirtioNet (VirtioMmio ℕ)
other_net = record {
  id = 0;
  virtio = its_transport (err Cmdline.not_found);
  rxqueue = busy_net.rxqueue;
  txqueue = busy_net.txqueue;
  cxqueue = busy_net.cxqueue;
  macaddr = busy_net.macaddr;
  flag_csum = false;
  flag_guest_csum = false;
  flag_mac = false;
  flag_guest_tso4 = false;
  flag_guest_ecn = false;
  flag_guest_ufo = false;
  flag_host_tso4 = false;
  flag_host_ecn = false;
  flag_mergeable_rxbufs = false;
  flag_status = false;
}

its_driver : ℕ → VirtioNet (VirtioMmio ℕ)
its_driver index = or_else other_net (or_else none (driver_of index))

first_driver : driver_of 0 ≡ some (some (its_driver 0))
unfolding driver_of its_driver transport its_transport Cmdline.new VirtioNet.new mmio_device
    Virtqueue.new Buffer.new of_layout from_size_align actual_size push get_avail_free_size
first_driver = refl

second_driver : driver_of 1 ≡ some (some (its_driver 1))
unfolding driver_of its_driver transport its_transport Cmdline.new VirtioNet.new mmio_device
    Virtqueue.new Buffer.new of_layout from_size_align actual_size push get_avail_free_size
second_driver = refl

second_mac-IsOther : IsOther (netif_of (its_driver 0)) (its_driver 1).macaddr
unfolding driver_of its_driver transport its_transport Cmdline.new VirtioNet.new mmio_device
    Virtqueue.new Buffer.new of_layout from_size_align actual_size push get_avail_free_size Mac.new
    Mac.mac_prim Mac.get_array
second_mac-IsOther = ((λ e. omega arith), (λ e. omega arith), (λ e. omega arith))

start_rust_lem_example :
    (c' : Kernel ℕ ℕ (List ℕ)) × (start_rust waiting_machine net_registers list_queue clock pointers
        fills test_rings
        (λ i. i)
        (λ r. r)
        10
        0
        0
        0
        0
        0
        []
        marked_memory
        0x1000
        device_base
        off_kernel
      ≡ some c')
    × (get_handler timer_irq c'.irq_handlers ≡ some timer)
    × (get_handler 5 c'.irq_handlers ≡ some (device (record { slot = 0; irq = 5 })))
    × (get_handler 6 c'.irq_handlers ≡ some (device (record { slot = 1; irq = 6 })))
    × (c'.world.network.drivers ≡ its_driver 0 ∷ its_driver 1 ∷ [])
    × ((its_driver 0).id ≡ 0)
    × ((its_driver 1).id ≡ 1)
    × IsReady (netif_of (its_driver 0)) first_address c'.world.network.net.tables
    × IsReady (netif_of (its_driver 1)) second_address c'.world.network.net.tables
    × AllAwake list_queue (λ q. q) 100_000 list_queue-IsBounded c'.world.executor
unfolding driver_of its_driver transport its_transport Cmdline.new VirtioNet.new mmio_device
    Virtqueue.new Buffer.new of_layout from_size_align actual_size push get_avail_free_size apic_up
    get_boot_flag get_header get_cmdline empty_tables
start_rust_lem_example =
    start_rust_lem waiting_machine net_registers list_queue clock pointers fills test_rings (λ i. i)
      (λ q. q) 100_000 list_queue-IsBounded (λ r. r) 10 0 0 0 0 0 [] marked_memory 0x1000
      device_base off_kernel boot_text booted_apic (its_transport (transport 0))
      (its_transport (transport 1)) (its_driver 0) (its_driver 1) refl refl refl apic_comes_up
      first_transport second_transport first_driver second_driver (omega arith) (omega arith)
      (omega arith) (omega arith) (omega arith) refl refl second_mac-IsOther (omega arith) refl refl
      refl
