-- ===== src/Devices/Serial.antt =====
-- src/devices/serial.rs and src/console.rs: the serial port, and what is printed once it is formatted.
pub mod Sends
mod Tests
use urchin.Prelude.{
  ℕ, zero, suc, ◌+◌, List, [], ◌∷◌, Option, none, some, Bool, true, false, ◌==◌, if◌then◌else◌, u16,
  bit_and, ◌>>=◌,
}
use urchin.Arch.Io.{Machine}

abbrev pub com1port : ℕ
com1port = 0x03f8

pub record SerialPort : Type 0 where
  pub port : ℕ

module _ {R : Type 0} (machine : Machine R) where
  pub init_serial : ℕ → R → R
  init_serial port r =
      let out = λ (k v : ℕ). machine.out_insn (u16 (port + k)) v in
      out 4 0x0b (out 2 0xc7 (out 3 0x03 (out 1 0x00 (out 0 0x03 (out 3 0x80 (out 1 0x00 r))))))

  pub new : ℕ → R → SerialPort × R
  unfolding init_serial
  new port r = (record { port = port }, init_serial port r)

  -- A test of the line status, and the machine after the read.
  abbrev pub is_received : ℕ → R → Bool × R
  is_received port r =
      let (status, r') = machine.in_insn (u16 (port + 5)) r in (bit_and status 0x01 == 1, r')

  abbrev pub is_transmit_empty : ℕ → R → Bool × R
  is_transmit_empty port r =
      let (status, r') = machine.in_insn (u16 (port + 5)) r in (bit_and status 0x20 == 0x20, r')

  -- The loops wait for the port for at most `fuel` tests.
  pub read_byte : ℕ → SerialPort → R → Option (ℕ × R)
  read_byte zero s r = none
  read_byte (suc fuel) s r =
      let (received, r') = is_received s.port r in
      if received then some (machine.in_insn s.port r') else read_byte fuel s (machine.elapse r')

  pub write_byte : ℕ → SerialPort → ℕ → R → Option R
  write_byte zero s val r = none
  write_byte (suc fuel) s val r =
      let (empty, r') = is_transmit_empty s.port r in
      if empty
      then some (machine.out_insn s.port val r')
      else write_byte fuel s val (machine.elapse r')

  pub write_str : ℕ → SerialPort → List ℕ → R → Option R
  unfolding write_byte
  write_str fuel s [] r = some r
  write_str fuel s (item ∷ bytes) r = write_byte fuel s item r >>= write_str fuel s bytes

  -- `console::init` and `console::print`; the console is what `CONSOLE` holds.
  unfoldable pub init : R → Option SerialPort × R
  unfolding new
  init r = let (s, r') = new com1port r in (some s, r')

  pub print : ℕ → Option SerialPort → List ℕ → R → Option R
  unfolding write_str
  print fuel none bytes r = some r
  print fuel (some console) bytes r = write_str fuel console bytes r
