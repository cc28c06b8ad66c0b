-- ===== src/Kernel/Devices.antt =====
-- From the memory that the boot loader leaves to the places of the devices, as `start_rust` goes.
use urchin.Prelude.{ℕ, ◌<◌, ◌≡◌, ◌≢◌, ap, ◌∙◌, List, ◌++◌, some, All, get_elem?, ◌>>=◌}
use urchin.Net.Frame.Laws.{bind_some}
use urchin.Boot.{slice_of, get_cmdline}
use urchin.Boot.Cmdline.{cmd_line_ptr, cmd_line_size, IsText, get_cmdline_lem}
use urchin.Devices.VirtioMmio.Cmdline.{parse}
use urchin.Devices.VirtioMmio.Cmdline.Text.{Placement, IsPlacement, devices_text}
use urchin.Devices.VirtioMmio.Cmdline.Digits.{addr_value, size_value, irq_value}
use urchin.Devices.VirtioMmio.Cmdline.Reads.{parse-devices_text}

-- The command line that the boot loader leaves, ended by a NUL within its size, lists devices behind a text
-- without a "v": for each number the kernel reads the address, the size and the interrupt line of that
-- device, as far as the widths of the numbers go.
pub booted_devices :
    (memory : ℕ → ℕ) (boot_params n : ℕ) (before : List ℕ) (ds : List Placement) (idx : ℕ)
    (d : Placement)
    → n < cmd_line_size memory boot_params
    → IsText memory (cmd_line_ptr memory boot_params) n
    → slice_of memory (cmd_line_ptr memory boot_params) n ≡ before ++ devices_text ds
    → All (λ c. c ≢ 118) before
    → All IsPlacement ds
    → get_elem? ds idx ≡ some d
    → (get_cmdline memory boot_params >>= λ cmd. parse cmd idx)
      ≡ some (addr_value d, size_value d, irq_value d)
booted_devices memory boot_params n before ds idx d short text bytes clean all at =
    bind_some (λ cmd. parse cmd idx) ((get_cmdline_lem memory boot_params).0 n short text)
      (ap (λ cmd. parse cmd idx) bytes ∙ parse-devices_text before ds idx d clean all at)
