-- ===== src/Devices/VirtioMmio.antt =====
-- `VirtioMMIO` of src/devices/virtio/mmio.rs: the registers of a virtio device, and the text on the
-- kernel's command line that says where they are. The bus that the registers lie on is a parameter; the
-- accesses are volatile, so each of them is made, in the order of the source.
pub mod Registers
pub mod Cmdline
pub mod Tests
use urchin.Prelude.{
  ℕ, ◌+◌, ◌%◌, ◌/◌, ◌*◌, ◌^◌, Option, none, some, Bool, true, false, ◌==◌, if◌then◌else◌, u8, u16,
  u32, u64, bit_and, bit_or, ◌<<<◌, ◌>>>◌,
}
use urchin.Devices.Virtqueue
use urchin.Devices.Virtqueue.{Virtqueue, get_descriptor_addr, get_avail_addr, get_used_addr}
use urchin.Devices.VirtioDevice.{VirtioDevice}

-- `read_volatile` and `write_volatile` at an address.
pub record Bus (R : Type 0) : Type 0 where
  pub read32 : ℕ → R → ℕ
  pub read8 : ℕ → R → ℕ
  pub write32 : ℕ → ℕ → R → R

pub record VirtioMmio (R : Type 0) : Type 0 where
  pub addr : ℕ
  pub size : ℕ
  pub irq : ℕ
  pub indirect_buf_cap : Bool
  pub event_idx_cap : Bool
  pub registers : R

module _ {R : Type 0} (bus : Bus R) where
  abbrev pub read_reg : ℕ → VirtioMmio R → ℕ
  read_reg offset d = bus.read32 (u64 (d.addr + offset)) d.registers

  abbrev pub write_reg : ℕ → ℕ → VirtioMmio R → VirtioMmio R
  write_reg offset v d = record d { registers = bus.write32 (u64 (d.addr + offset)) v d.registers }

  pub read_and_ack_isr : VirtioMmio R → ℕ × VirtioMmio R
  read_and_ack_isr d =
      let intr_status = read_reg 0x060 d in
      (bit_and intr_status 0x01, write_reg 0x064 intr_status d)

  pub select_queue : ℕ → VirtioMmio R → Option (VirtioMmio R)
  select_queue queue d =
      let d' = write_reg 0x030 queue d in if read_reg 0x044 d' == 0 then some d' else none

  pub setup_queue : Virtqueue → VirtioMmio R → VirtioMmio R
  setup_queue q d =
      let d₁ = write_reg 0x038 (u32 (Virtqueue.get_size q)) d in
      let d₂ = write_reg 0x080 (u32 (bit_and (get_descriptor_addr q) 0xffff_ffff)) d₁ in
      let d₃ = write_reg 0x084 (u32 (get_descriptor_addr q >>> 32)) d₂ in
      let d₄ = write_reg 0x090 (u32 (bit_and (get_avail_addr q) 0xffff_ffff)) d₃ in
      let d₅ = write_reg 0x094 (u32 (get_avail_addr q >>> 32)) d₄ in
      let d₆ = write_reg 0x0a0 (u32 (bit_and (get_used_addr q) 0xffff_ffff)) d₅ in
      write_reg 0x0a4 (u32 (get_used_addr q >>> 32)) d₆

  unfoldable pub get_available_features : VirtioMmio R → ℕ × VirtioMmio R
  get_available_features d =
      let d₁ = write_reg 0x014 1 d in
      let high = read_reg 0x010 d₁ <<< 32 in
      let d₂ = write_reg 0x014 0 d₁ in (bit_or high (read_reg 0x010 d₂), d₂)

  unfoldable pub set_enabled_features : ℕ → VirtioMmio R → VirtioMmio R
  set_enabled_features features d =
      let d₁ = write_reg 0x024 1 d in
      let d₂ = write_reg 0x020 (u32 (features >>> 32)) d₁ in
      let d₃ = write_reg 0x024 0 d₂ in write_reg 0x020 (u32 (bit_and features 0xffff_ffff)) d₃

  -- The implementation of the trait.
  unfoldable pub mmio_device : VirtioDevice (VirtioMmio R)
  unfolding read_and_ack_isr select_queue setup_queue get_available_features set_enabled_features
  mmio_device = record {
    get_type = read_reg 0x008;
    get_irq = λ d. d.irq;
    read_and_ack_isr = read_and_ack_isr;
    select_queue = select_queue;
    get_queue_size = λ d. u16 (read_reg 0x034 d);
    setup_queue = setup_queue;
    activate_queue = λ queue. write_reg 0x044 1;
    kick_queue = λ queue. write_reg 0x050 queue;
    get_available_features = get_available_features;
    set_enabled_features = set_enabled_features;
    get_status = λ d. u8 (read_reg 0x070 d);
    set_status = λ status. write_reg 0x070 status;
    read_config = λ offset d. bus.read8 (u64 (d.addr + 0x100 + offset)) d.registers;
    is_legacy = λ d. false;
    set_indirect_buf_cap = λ flag d. record d { indirect_buf_cap = flag };
    get_indirect_buf_cap = λ d. d.indirect_buf_cap;
    set_event_idx_cap = λ flag d. record d { event_idx_cap = flag };
    get_event_idx_cap = λ d. d.event_idx_cap;
  }
