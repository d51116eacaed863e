-- ===== src/Lightning/Transactions.antt =====
-- The transactions of the driver: what `write_reg_raw`, `read_reg_raw` and `write_reg` send
-- (hayselnut/src/lightning/mod.rs).
use hayselnut.Common.{
  ℕ, ◌+◌, ◌%◌, ◌<◌, ◌≡◌, ◌∙◌, ap, ap₂, List, [], ◌∷◌, ◌++◌, length, drop, Bool, true, false, arith,
  append_assoc, length-append, length-drop, drop-append, returns, if◌then◌else◌,
}
use hayselnut.Lightning.Bits.{bits, from_bits, bits-returns, number, number-bits}
use hayselnut.Lightning.Sensor.{
  pure, ◌>>=◌, ◌>>◌, wait, lift, finished, finished_then, write_bits, read_bits, address_bits,
  write_reg_raw, read_reg_raw, end, lift_returns,
}
use hayselnut.Lightning.Wires.{Wires, wires}
use hayselnut.Lightning.Frames.{within, sensor, write_bits_lem, read_bits_lem, kind_bits_lem}

-- The wires between two pulses of the clock, with CS at a level.
abbrev pub standing : Bool → Bool → Bool → List Bool → List Bool → List (List Bool) → Wires
standing cs mosi miso replies received frames = record {
  cs = cs;
  clk = false;
  mosi = mosi;
  miso = miso;
  replies = replies;
  received = received;
  frames = frames;
}

-- What the frame that is sent already holds: nothing, if CS was high.
abbrev pub begun : Bool → List Bool → List Bool
begun cs received = if cs then [] else received

module _ {E : Type 0} (delay : ℕ) (frames : List (List Bool)) where
  address_bits_lem :
      (b0 b1 : Bool) (reg : ℕ) (cs mosi miso : Bool) (replies received : List Bool)
      → (address : List Bool) × (mosi' miso' : Bool) × (bits reg ≡ returns address)
        × (length address ≡ 8)
        × (address_bits {E = E} wires b0 b1 reg
              (sensor delay (standing cs mosi miso replies received frames))
            ≡ finished _ (
                sensor delay (
                  within mosi' miso'
                    (drop 8 replies)
                    (begun cs received ++ (b0 ∷ b1 ∷ drop 2 address))
                    frames)))
  unfolding address_bits
  address_bits_lem b0 b1 reg true mosi miso replies received =
      kind_bits_lem delay frames b0 b1 reg mosi miso replies []
  address_bits_lem b0 b1 reg false mosi miso replies received =
      kind_bits_lem delay frames b0 b1 reg mosi miso replies received

  pub write_reg_raw_frame :
      (reg value : ℕ) (cs mosi miso : Bool) (replies received : List Bool)
      → (address written : List Bool) × (mosi' miso' : Bool) × (bits reg ≡ returns address)
        × (bits value ≡ returns written)
        × (length address ≡ 8)
        × (length written ≡ 8)
        × (write_reg_raw {E = E} wires reg value
              (sensor delay (standing cs mosi miso replies received frames))
            ≡ finished _ (
                sensor delay (
                  standing true mosi' miso' (drop 8 (drop 8 replies)) [] (
                    frames
                    ++ ((begun cs received ++ (false ∷ false ∷ drop 2 address ++ written)) ∷ [])))))
  unfolding write_reg_raw
  write_reg_raw_frame reg value cs mosi miso replies received =
      let (address, mosi1, miso1, ea, la, sent) =
        address_bits_lem false false reg cs mosi miso replies received in
      let (written, ew, lw) = bits-returns value in
      let (mosi2, miso2, sent2) =
        write_bits_lem {E = E} delay frames written mosi1 miso1 (drop 8 replies)
          (begun cs received ++ (false ∷ false ∷ drop 2 address)) in
      (
        address,
        written,
        mosi2,
        miso2,
        ea,
        ew,
        la,
        lw,
        finished_then (address_bits wires false false reg) _ sent
            ∙ finished_then (lift (bits value))
                (λ bs. ◌>>◌ (write_bits wires bs) (◌>>◌ (end wires) (wait wires)))
                (lift_returns _ ew)
            ∙ finished_then (write_bits wires written) (λ _. ◌>>◌ (end wires) (wait wires)) sent2
            ∙ ap₂
                (λ (rs ts : List Bool).
                  finished _ (sensor delay (standing true mosi2 miso2 rs [] (frames ++ (ts ∷ [])))))
                (ap (λ n. drop n (drop 8 replies)) lw)
                (append_assoc (begun cs received) (false ∷ false ∷ drop 2 address) written),
      )

  -- Of a register and a value that are bytes, `write_reg_raw` sends one frame: what was begun before if CS was low,
  -- two zero bits, six bits that are in binary, the most significant one first, the register's remainder by 64, and
  -- eight that are so the value. CS is high behind it, and sixteen replies have gone by.
  pub write_reg_raw_lem :
      (reg value : ℕ) (cs mosi miso : Bool) (replies received : List Bool)
      → reg < 256
      → value < 256
      → (six eight : List Bool) × (mosi' miso' : Bool) × (length six ≡ 6)
        × (number six ≡ reg % 64)
        × (length eight ≡ 8)
        × (number eight ≡ value)
        × (write_reg_raw {E = E} wires reg value
              (sensor delay (standing cs mosi miso replies received frames))
            ≡ finished _ (
                sensor delay (
                  standing true mosi' miso'
                    (drop 8 (drop 8 replies))
                    []
                    (frames ++ ((begun cs received ++ (false ∷ false ∷ six ++ eight)) ∷ [])))))
  write_reg_raw_lem reg value cs mosi miso replies received small small' =
      let (address, written, mosi', miso', ea, ew, la, lw, sent) =
        write_reg_raw_frame reg value cs mosi miso replies received in
      (
        drop 2 address,
        written,
        mosi',
        miso',
        omega (arith, la, length-drop 2 address),
        (number-bits reg address small ea).1,
        lw,
        (number-bits value written small' ew).0,
        sent,
      )

  -- Where the sensor answers with eight bits after the eight that it is sent, these are the byte that is
  -- read; CS stays low, and what was sent is still to be ended.
  pub read_reg_raw_lem :
      (reg : ℕ) (cs mosi miso : Bool) (quiet answer replies received : List Bool)
      → length quiet ≡ 8
      → length answer ≡ 8
      → (address : List Bool) × (mosi' miso' : Bool) × (received' : List Bool) × (bits reg
          ≡ returns address)
        × (length address ≡ 8)
        × (length received' ≡ length (begun cs received) + 16)
        × (read_reg_raw {E = E} wires reg
              (sensor delay (standing cs mosi miso (quiet ++ (answer ++ replies)) received frames))
            ≡ finished
                (from_bits answer)
                (sensor delay (standing false mosi' miso' replies received' frames)))
  unfolding read_reg_raw
  read_reg_raw_lem reg cs mosi miso quiet answer replies received lq la =
      let (address, mosi1, miso1, ea, laddress, sent) =
        address_bits_lem false true reg cs mosi miso (quiet ++ (answer ++ replies)) received in
      let (miso2, received', read, lr) =
        read_bits_lem {E = E} delay frames 8 answer mosi1 miso1 replies
          (begun cs received ++ (false ∷ true ∷ drop 2 address)) la in
      let now_sent = length-append (begun cs received) (false ∷ true ∷ drop 2 address) in
      (
        address,
        mosi1,
        miso2,
        received',
        ea,
        laddress,
        omega (arith, lr, now_sent, laddress, length-drop 2 address),
        finished_then (address_bits wires false true reg)
              (λ _. ◌>>=◌ (read_bits wires 8) (λ read. pure (from_bits read)))
              (sent
                ∙ ap
                    (λ (rs : List Bool). finished _ (
                      sensor delay (
                        within mosi1 miso1 rs (begun cs received ++ (false ∷ true ∷ drop 2 address))
                          frames)))
                    (drop-append 8 quiet (answer ++ replies) lq))
            ∙ finished_then (read_bits wires 8) (λ read. pure (from_bits read)) read,
      )
