-- ===== src/Net/Arp/Tests.antt =====
-- A request that is not answered, and a packet that takes the kernel's address.
use urchin.Prelude.{ℕ, ◌≡◌, refl, arith, List, [], ◌∷◌, none, some, set}
use urchin.Prelude.Map.{get, insert}
use urchin.Devices.Buffer.{slice, slice_len}
use urchin.Net.Ipv4Address
use urchin.Net.Ipv4Address.{ipv4_ord}
use urchin.Net.Fib.{register_ipv4_adjacent, register_entry}
use urchin.Net.Node.{NetState}
use urchin.Net.Arp.{arp_one}
use urchin.Net.Arp.Spoof.{spoofed_passes}
use urchin.Net.Ipv4In.{ipv4_process}
use urchin.Net.Sample.{start, frame_of, other_request_bytes, echo_bytes, blank}

-- A packet whose sender says that it has the kernel's address.
abbrev spoof_bytes : List ℕ
spoof_bytes = set other_request_bytes 31 10

spoofed_passes_example :
    (st' : NetState) × (arp_one blank (frame_of spoof_bytes) start ≡ some st')
    × (st'.sent ≡ [])
    × (ipv4_process (λ name. some (λ buff st. none)) (frame_of echo_bytes ∷ []) st' ≡ some st')
unfolding slice slice_len get Ipv4Address.from_array register_ipv4_adjacent register_entry insert
spoofed_passes_example =
    spoofed_passes blank (λ name. some (λ buff st. none)) (frame_of spoof_bytes)
      (frame_of echo_bytes) start (omega arith) (omega arith) refl refl (omega arith) refl
