-- ===== src/Devices/Serial/Sends.antt =====
-- A text leaves the serial port as it is.
use urchin.Prelude.{
  ℕ, zero, suc, ◌≤◌, ◌<◌, ◌≡◌, refl, arith, ap, sym, ◌∙◌, List, [], ◌∷◌, ◌++◌, some, true, false,
  append-nil, append_assoc, ◌>>=◌,
}
use urchin.Arch.Io.{Machine}
use urchin.Devices.Serial.{SerialPort, is_transmit_empty, write_byte, write_str, print}

-- A port that is busy for at most `limit` tests after each byte, and sends what is written to it when it
-- is not busy. It has been busy long enough when `busy` is zero.
pub record IsPort {R : Type 0} (machine : Machine R) (s : SerialPort) (sent : R → List ℕ)
    (busy : R → ℕ) (limit : ℕ) : Type 0 where
  pub ready : (r : R) → busy r ≡ 0 → (is_transmit_empty machine s.port r).0 ≡ true
  pub not_ready : (r : R) (k : ℕ) → busy r ≡ suc k → (is_transmit_empty machine s.port r).0 ≡ false
  pub same :
      (r : R)
      → let r' = (is_transmit_empty machine s.port r).1 in (sent r' ≡ sent r) × (busy r' ≡ busy r)
  pub passes : (r : R) (k : ℕ) → busy r ≡ suc k → busy (machine.elapse r) ≡ k
  pub quiet : (r : R) → sent (machine.elapse r) ≡ sent r
  pub sends : (r : R) (v : ℕ) → busy r ≡ 0 → sent (machine.out_insn s.port v r) ≡ sent r ++ (v ∷ [])
  pub limited : (r : R) (v : ℕ) → busy (machine.out_insn s.port v r) ≤ limit

module _ {R : Type 0} (machine : Machine R) (s : SerialPort) (sent : R → List ℕ) (busy : R → ℕ)
    (limit : ℕ) (laws : IsPort machine s sent busy limit) where
  write_byte-sends :
      (k fuel v : ℕ) (r : R)
      → busy r ≡ k
      → k < fuel
      → (r' : R) × (write_byte machine fuel s v r ≡ some r')
        × (sent r' ≡ sent r ++ (v ∷ []))
        × (busy r' ≤ limit)
  unfolding write_byte
  write_byte-sends k zero v r e lt = absurd (omega arith)
  write_byte-sends zero (suc fuel) v r e lt =
      let r' = (is_transmit_empty machine s.port r).1 in
      let (kept, waited) = laws.same r in
      (
        machine.out_insn s.port v r',
        rw (write_byte, laws.ready r e) refl,
        laws.sends r' v (waited ∙ e) ∙ ap (λ l. l ++ (v ∷ [])) kept,
        laws.limited r' v,
      )
  write_byte-sends (suc k) (suc fuel) v r e lt =
      let r' = (is_transmit_empty machine s.port r).1 in
      let (kept, waited) = laws.same r in
      let (r₁, wrote, s₁, b₁) =
        write_byte-sends k fuel v (machine.elapse r') (laws.passes r' k (waited ∙ e))
          (omega arith) in
      (
        r₁,
        rw (write_byte, laws.not_ready r k e) wrote,
        s₁ ∙ ap (λ l. l ++ (v ∷ [])) (laws.quiet r' ∙ kept),
        b₁,
      )

  -- With more tests than the port is ever busy for, a text is printed to its end, and the port has sent
  -- its bytes in order behind what it had sent before.
  pub print-sends :
      (bytes : List ℕ) (fuel : ℕ) (r : R)
      → busy r ≤ limit
      → limit < fuel
      → (r' : R) × (print machine fuel (some s) bytes r ≡ some r')
        × (sent r' ≡ sent r ++ bytes)
        × (busy r' ≤ limit)
  unfolding print write_str
  print-sends [] fuel r h lt = (r, refl, sym (append-nil (sent r)), h)
  print-sends (v ∷ bytes) fuel r h lt =
      let (r₁, wrote, s₁, b₁) = write_byte-sends (busy r) fuel v r refl (omega arith) in
      let (r₂, rest, s₂, b₂) = print-sends bytes fuel r₁ b₁ lt in
      (
        r₂,
        ap (λ o. o >>= write_str machine fuel s bytes) wrote ∙ rest,
        s₂ ∙ ap (λ l. l ++ bytes) s₁ ∙ append_assoc (sent r) (v ∷ []) bytes,
        b₂,
      )
