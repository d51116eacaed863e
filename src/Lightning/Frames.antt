-- ===== src/Lightning/Frames.antt =====
-- What the driver sends to the sensor, and takes from it, bit by bit.
use hayselnut.Common.{
  ℕ, zero, suc, ◌+◌, ◌≡◌, ◌∙◌, refl, ap₂, drop-nil, List, [], ◌∷◌, ◌++◌, length, drop, Bool, false,
  arith, append_assoc, append-nil, length-append, length-drop, returns,
}
use hayselnut.Lightning.Bits.{bits, bits-returns}
use hayselnut.Lightning.Sensor.{
  LightningSensor, pure, ◌>>=◌, ◌>>◌, wait, lift, finished, finished_then, write_bit, write_bits,
  read_bit, read_bits,
}
use hayselnut.Lightning.Wires.{Wires, wires, next_reply, later_replies}

-- The wires within a transaction, between two pulses of the clock.
abbrev pub within : Bool → Bool → List Bool → List Bool → List (List Bool) → Wires
within mosi miso replies received frames = record {
  cs = false;
  clk = false;
  mosi = mosi;
  miso = miso;
  replies = replies;
  received = received;
  frames = frames;
}

abbrev pub sensor : ℕ → Wires → LightningSensor Wires
sensor delay w = record { pins = w; transaction_delay = delay }

drop-later_replies :
    (n : ℕ) (replies : List Bool) → drop n (later_replies replies) ≡ drop (suc n) replies
unfolding drop
drop-later_replies n [] = drop-nil n
drop-later_replies n (b ∷ rest) = refl

-- Two replies and one for each bit behind them.
drop_eight :
    (address replies : List Bool)
    → length address ≡ 8
    → drop (length (drop 2 address)) (later_replies (later_replies replies)) ≡ drop 8 replies
drop_eight address replies h =
    let six : length (drop 2 address) ≡ 6 = omega (arith, h, length-drop 2 address) in
    rw six (drop-later_replies 6 (later_replies replies) ∙ drop-later_replies 7 replies)

module _ {E : Type 0} (delay : ℕ) (frames : List (List Bool)) where
  write_bit_lem :
      (b mosi miso : Bool) (replies received : List Bool)
      → write_bit {E = E} wires b (sensor delay (within mosi miso replies received frames))
        ≡ finished _ (
            sensor delay
              (within b (next_reply replies) (later_replies replies) (received ++ (b ∷ [])) frames))
  unfolding write_bit
  write_bit_lem b mosi miso replies received = refl

  -- The bits are received in order, one reply goes by for each.
  pub write_bits_lem :
      (bs : List Bool) (mosi miso : Bool) (replies received : List Bool)
      → (mosi' miso' : Bool) × (write_bits {E = E} wires bs
            (sensor delay (within mosi miso replies received frames))
          ≡ finished _ (
              sensor delay (within mosi' miso' (drop (length bs) replies) (received ++ bs) frames)))
  unfolding write_bits write_bit drop
  write_bits_lem [] mosi miso replies received = (mosi, miso, rw (append-nil received) refl)
  write_bits_lem (b ∷ bs) mosi miso [] received =
      let (mosi', miso', e) = write_bits_lem bs b false [] (received ++ (b ∷ [])) in
      (
        mosi',
        miso',
        e
            ∙ ap₂
                (λ (rs ts : List Bool). finished _ (sensor delay (within mosi' miso' rs ts frames)))
                (drop-nil (length bs)) (append_assoc received (b ∷ []) bs),
      )
  write_bits_lem (b ∷ bs) mosi miso (r ∷ replies) received =
      let (mosi', miso', e) = write_bits_lem bs b r replies (received ++ (b ∷ [])) in
      (
        mosi',
        miso',
        e
            ∙ ap₂
                (λ (rs ts : List Bool). finished _ (sensor delay (within mosi' miso' rs ts frames)))
                refl (append_assoc received (b ∷ []) bs),
      )

  -- As many replies are read.
  pub read_bits_lem :
      (n : ℕ) (answer : List Bool) (mosi miso : Bool) (rest received : List Bool)
      → length answer ≡ n
      → (miso' : Bool) × (received' : List Bool) × (read_bits {E = E} wires n
            (sensor delay (within mosi miso (answer ++ rest) received frames))
          ≡ finished answer (sensor delay (within mosi miso' rest received' frames)))
        × (length received' ≡ length received + n)
  unfolding read_bits read_bit
  read_bits_lem zero [] mosi miso rest received h = (miso, received, refl, omega arith)
  read_bits_lem zero (b ∷ answer) mosi miso rest received h = absurd (omega arith)
  read_bits_lem (suc n) [] mosi miso rest received h = absurd (omega arith)
  read_bits_lem (suc n) (b ∷ answer) mosi miso rest received h =
      let (miso', received', e, l) =
        read_bits_lem n answer mosi b rest (received ++ (mosi ∷ [])) (omega arith) in
      (
        miso',
        received',
        finished_then (read_bits wires n) (λ answer. pure (b ∷ answer)) e,
        omega (arith, l, length-append received (mosi ∷ [])),
      )

  pub kind_bits_lem :
      (b0 b1 : Bool) (reg : ℕ) (mosi miso : Bool) (replies received : List Bool)
      → (address : List Bool) × (mosi' miso' : Bool) × (bits reg ≡ returns address)
        × (length address ≡ 8)
        × (◌>>◌
              (wait (wires {E = E}))
              (do
                write_bit wires b0
                wait wires
                write_bit wires b1
                wait wires
                address ← lift (bits reg)
                write_bits wires (drop 2 address))
              (sensor delay (within mosi miso replies received frames))
            ≡ finished _ (
                sensor delay (
                  within mosi' miso'
                    (drop 8 replies)
                    (received ++ (b0 ∷ b1 ∷ drop 2 address))
                    frames)))
  unfolding write_bit
  kind_bits_lem b0 b1 reg mosi miso replies received =
      let (address, e, l) = bits-returns reg in
      let (mosi', miso', sent) =
        write_bits_lem (drop 2 address) b1 (next_reply (later_replies replies))
          (later_replies (later_replies replies)) ((received ++ (b0 ∷ [])) ++ (b1 ∷ [])) in
      (
        address,
        mosi',
        miso',
        e,
        l,
        rw e (
            sent
            ∙ ap₂
                (λ (rs ts : List Bool). finished _ (sensor delay (within mosi' miso' rs ts frames)))
                (drop_eight address replies l)
                (append_assoc (received ++ (b0 ∷ [])) (b1 ∷ []) (drop 2 address)
                  ∙ append_assoc received (b0 ∷ []) (b1 ∷ drop 2 address))),
      )
