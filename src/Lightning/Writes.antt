-- ===== src/Lightning/Writes.antt =====
-- What `write_reg` sends (hayselnut/src/lightning/mod.rs), and what becomes of the setting.
use hayselnut.Common.{
  ℕ, ◌*◌, ◌/◌, ◌%◌, ◌^◌, ◌≤◌, ◌<◌, ◌≡◌, ◌∙◌, refl, sym, ap, List, [], ◌∷◌, ◌++◌, length, drop, Bool,
  true, false, arith, returns, length-append, length-drop, bit_or, bit_xor, leb, le→leb,
  if◌then◌else◌, panics, passes_under, passes_under-at, ltb, ◌==◌, ◌||◌, not, append_assoc,
  returns_injective, ◌&&◌,
}
use hayselnut.Lightning.Bits.{
  bits, from_bits, calculate_bitshift, calculate_bitshift_zero, from_bits_lt, from_bits-bits,
}
use hayselnut.Lightning.Repr.{on, power_into}
use hayselnut.Lightning.Registers.{Register}
use hayselnut.Lightning.Registers
use hayselnut.Lightning.Sensor.{
  ◌>>=◌, ◌>>◌, lift, finished, finished_then, lift_returns, read_reg_raw, write_reg_raw, write_reg,
  sleep_for,
}
use hayselnut.Lightning.Driver.{set_status}
use hayselnut.Lightning.Wires.{wires}
use hayselnut.Lightning.Frames.{sensor}
use hayselnut.Lightning.Transactions.{standing, read_reg_raw_lem, write_reg_raw_frame}

-- A payload that fits in the mask is not shifted.
not_shifted :
    (mask byte : ℕ)
    → mask < 256
    → byte ≤ mask
    → (leb byte (mask / 2 ^ calculate_bitshift mask) ≡ true)
      × (byte * 2 ^ calculate_bitshift mask % 256 ≡ byte)
not_shifted mask byte small fits =
    let zero_shift = calculate_bitshift_zero mask small in
    (rw zero_shift (le→leb byte (mask / 2 ^ 0) (omega arith)), rw zero_shift (omega arith))

power_on_byte : (Registers.power_down).into on ≡ returns 0
unfolding power_into
power_on_byte = refl

-- Where the power bit of a byte is clear, it is set in what is written for `on`.
power_table :
    passes_under 256 (λ cur.
      not (cur % 2 == 0)
      || (ltb (bit_or (bit_xor cur 1) 0) 256 && (bit_or (bit_xor cur 1) 0 % 2 == 1)))
    ≡ true
unfolding passes_under
power_table = refl

turned_off :
    (cur : ℕ) (written : List Bool)
    → cur < 256
    → cur % 2 ≡ 0
    → bits (bit_or (bit_xor cur 1) 0) ≡ returns written
    → from_bits written % 2 ≡ 1
turned_off cur written small even e =
    let row =
      passes_under-at 256
        (λ cur.
          not (cur % 2 == 0)
          || (ltb (bit_or (bit_xor cur 1) 0) 256 && (bit_or (bit_xor cur 1) 0 % 2 == 1)))
        cur power_table small in
    let fits : bit_or (bit_xor cur 1) 0 < 256 = ground (arith, row, even) in
    let odd : bit_or (bit_xor cur 1) 0 % 2 ≡ 1 = ground (arith, row, even) in
    let back = from_bits-bits (bit_or (bit_xor cur 1) 0) fits in
    let same : from_bits written ≡ bit_or (bit_xor cur 1) 0 = returns_injective (rw e at back) in
    rw same odd

module _ {E : Type 0} (delay : ℕ) (frames : List (List Bool)) where
  pub write_reg_lem :
      (r : Register) (payload : r.Repr) (byte : ℕ) (mosi miso : Bool)
      (quiet answer replies received : List Bool)
      → r.mask < 256
      → r.into payload ≡ returns byte
      → byte ≤ r.mask
      → length quiet ≡ 8
      → length answer ≡ 8
      → (start written : List Bool) × (mosi' miso' : Bool) × (length start ≡ 24)
        × (length written ≡ 8)
        × (bits (bit_or (bit_xor (from_bits answer) r.mask) byte) ≡ returns written)
        × (write_reg {E = E} wires r payload (
              sensor delay (standing true mosi miso (quiet ++ (answer ++ replies)) received frames))
            ≡ finished _ (
                sensor delay (
                  standing true mosi' miso'
                    (drop 8 (drop 8 replies))
                    []
                    (frames ++ ((start ++ written) ∷ [])))))
  unfolding write_reg
  write_reg_lem r payload byte mosi miso quiet answer replies received small into fits lq la =
      let (passes, plain) = not_shifted r.mask byte small fits in
      let (_, mosi1, miso1, received1, _, _, lr, read) =
        read_reg_raw_lem {E = E} delay frames r.address true mosi miso quiet answer replies received
          lq la in
      let (address, written, mosi2, miso2, ea, ew, laddress, lw, wrote) =
        write_reg_raw_frame {E = E} delay frames r.address
          (bit_or (bit_xor (from_bits answer) r.mask) byte) false mosi1 miso1 replies received1 in
      (
        received1 ++ (false ∷ false ∷ drop 2 address),
        written,
        mosi2,
        miso2,
        omega (
          arith,
          lr,
          laddress,
          length-append received1 (false ∷ false ∷ drop 2 address),
          length-drop 2 address,
        ),
        lw,
        ew,
        finished_then (lift (r.into payload))
              (λ b.
                ◌>>◌
                  (lift
                    (if leb b (r.mask / 2 ^ calculate_bitshift r.mask) then returns _ else panics))
                  (◌>>=◌ (read_reg_raw wires r.address) (λ current.
                    write_reg_raw wires r.address
                      (bit_or (bit_xor current r.mask) (b * 2 ^ calculate_bitshift r.mask % 256)))))
              (lift_returns _ into)
            ∙ finished_then
                (lift
                  (if leb byte (r.mask / 2 ^ calculate_bitshift r.mask) then returns _ else panics))
                (λ _. ◌>>=◌ (read_reg_raw wires r.address) (λ current.
                  write_reg_raw wires r.address
                    (bit_or (bit_xor current r.mask) (byte * 2 ^ calculate_bitshift r.mask % 256))))
                (lift_returns _ (rw passes refl))
            ∙ finished_then (read_reg_raw wires r.address)
                (λ current.
                  write_reg_raw wires r.address
                    (bit_or (bit_xor current r.mask) (byte * 2 ^ calculate_bitshift r.mask % 256)))
                read
            ∙ ap
                (λ v.
                  write_reg_raw wires r.address (bit_or (bit_xor (from_bits answer) r.mask) v)
                    (sensor delay (standing false mosi1 miso1 replies received1 frames)))
                plain
            ∙ wrote
            ∙ ap
                (λ f. finished _ (
                  sensor delay
                    (standing true mosi2 miso2 (drop 8 (drop 8 replies)) [] (frames ++ (f ∷ [])))))
                (sym (append_assoc received1 (false ∷ false ∷ drop 2 address) written)),
      )

  -- After an answer whose power bit says that the sensor is on, `set_status` of `on` ends its one frame of 32
  -- bits with a byte whose power bit says off.
  pub set_status_on :
      (mosi miso : Bool) (quiet answer replies received : List Bool)
      → length quiet ≡ 8
      → length answer ≡ 8
      → from_bits answer % 2 ≡ 0
      → (start written : List Bool) × (mosi' miso' : Bool) × (length start ≡ 24)
        × (length written ≡ 8)
        × (from_bits written % 2 ≡ 1)
        × (set_status {E = E} wires on (
              sensor delay (standing true mosi miso (quiet ++ (answer ++ replies)) received frames))
            ≡ finished _ (
                sensor delay (
                  standing true mosi' miso'
                    (drop 8 (drop 8 replies))
                    []
                    (frames ++ ((start ++ written) ∷ [])))))
  unfolding set_status
  set_status_on mosi miso quiet answer replies received lq la is_on =
      let (start, written, mosi', miso', ls, lw, ew, wrote) =
        write_reg_lem Registers.power_down on 0 mosi miso quiet answer replies received
          (omega arith) power_on_byte (omega arith) lq la in
      let small = from_bits_lt answer la in
      (
        start,
        written,
        mosi',
        miso',
        ls,
        lw,
        turned_off (from_bits answer) written small is_on ew,
        finished_then (write_reg wires Registers.power_down on) (λ _. sleep_for wires 2) wrote,
      )
