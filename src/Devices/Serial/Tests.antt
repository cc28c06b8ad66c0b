-- ===== src/Devices/Serial/Tests.antt =====
-- A port that is busy for two tests after each byte.
use urchin.Prelude.{ℕ, ◌-◌, ◌≤◌, ◌≡◌, refl, arith, List, [], ◌∷◌, ◌++◌, some, ◌==◌, if◌then◌else◌}
use urchin.Arch.Io.{Machine}
use urchin.Devices.Serial.{SerialPort, com1port, print}
use urchin.Devices.Serial.Sends.{IsPort, print-sends}

record Uart : Type 0 where
  sent : List ℕ
  busy : ℕ

abbrev uart : Machine Uart
uart = record {
  read32 = λ addr r. 0;
  write32 = λ addr v r. r;
  out_insn = λ port v r. record { sent = r.sent ++ (v ∷ []); busy = 2 };
  in_insn = λ port r. ((if r.busy == 0 then 0x60 else 0), r);
  wrmsr_insn = λ reg lo hi r. r;
  rdmsr_insn = λ reg r. (0, 0);
  rdtsc_insn = λ r. (0, 0);
  kvm_features = λ r. 0;
  elapse = λ r. record r { busy = r.busy - 1 };
}

abbrev com1 : SerialPort
com1 = record { port = com1port }

uart-IsPort : IsPort uart com1 (λ r. r.sent) (λ r. r.busy) 2
uart-IsPort = record {
  ready = λ r e. rw e refl;
  not_ready = λ r k e. ground (arith, e);
  passes = λ r k e. omega (arith, e);
  same = λ r. (refl, refl);
  quiet = λ r. refl;
  sends = λ r v e. refl;
  limited = λ r v. omega arith;
}

-- "OK"
print-sends_example :
    (r' : Uart) × (print uart 3 (some com1) (79 ∷ 75 ∷ []) (record { sent = 10 ∷ []; busy = 1 })
      ≡ some r')
    × (r'.sent ≡ (10 ∷ []) ++ (79 ∷ 75 ∷ []))
    × (r'.busy ≤ 2)
print-sends_example =
    print-sends uart com1 (λ r. r.sent) (λ r. r.busy) 2 uart-IsPort (79 ∷ 75 ∷ []) 3
      (record { sent = 10 ∷ []; busy = 1 }) (omega arith) (omega arith)
