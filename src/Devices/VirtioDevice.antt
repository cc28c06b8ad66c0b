-- ===== src/Devices/VirtioDevice.antt =====
-- The trait `VirtioDevice` of src/devices/virtio.rs, as operations on the state of a transport and of the
-- device behind it. What takes `&self` reads the state, what takes `&mut self` gives a new one; `none`
-- is a failed assertion. `get_shm`, which has one answer and no caller, is left out.
use urchin.Prelude.{ℕ, Bool, Option}
use urchin.Devices.Virtqueue.{Virtqueue}

pub record VirtioDevice (S : Type 0) : Type 0 where
  pub get_type : S → ℕ
  pub get_irq : S → ℕ
  pub read_and_ack_isr : S → ℕ × S
  pub select_queue : ℕ → S → Option S
  pub get_queue_size : S → ℕ
  pub setup_queue : Virtqueue → S → S
  pub activate_queue : ℕ → S → S
  pub kick_queue : ℕ → S → S
  pub get_available_features : S → ℕ × S
  pub set_enabled_features : ℕ → S → S
  pub get_status : S → ℕ
  pub set_status : ℕ → S → S
  pub read_config : ℕ → S → ℕ
  pub is_legacy : S → Bool
  pub set_indirect_buf_cap : Bool → S → S
  pub get_indirect_buf_cap : S → Bool
  pub set_event_idx_cap : Bool → S → S
  pub get_event_idx_cap : S → Bool
