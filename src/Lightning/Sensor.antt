-- ===== src/Lightning/Sensor.antt =====
-- `LightningSensor` (hayselnut/src/lightning/mod.rs). Its pins are embedded_hal's, which are parameters:
-- `Pins` says what they do to the state behind them, and so does `sleep`, in milliseconds.
use hayselnut.Common.{
  ℕ, zero, suc, ◌*◌, ◌/◌, ◌%◌, ◌^◌, ◌≡◌, refl, ap, List, [], ◌∷◌, Bool, true, false, leb,
  if◌then◌else◌, drop, Outcome, returns, panics, bit_and, bit_or, bit_xor,
}
use hayselnut.Lightning.Bits.{bits, from_bits, calculate_bitshift}
use hayselnut.Lightning.Registers.{Register}

-- What a pin does: it gives a value, or it refuses.
pub data Signal (S E A : Type 0) : Type 0 where
  done : A → S → Signal S E A
  refused : E → S → Signal S E A

pub record Pins (S E : Type 0) : Type 0 where
  pub set_cs : Bool → S → Signal S E (Unit {0})
  pub set_clk : Bool → S → Signal S E (Unit {0})
  pub set_mosi : Bool → S → Signal S E (Unit {0})
  pub miso_is_high : S → Signal S E Bool
  pub sleep : ℕ → S → S

pub record LightningSensor (S : Type 0) : Type 0 where
  pub pins : S
  pub transaction_delay : ℕ

-- How a function of the driver ends: it returns, it fails as a pin did, or it panics.
pub data Ran (S E A : Type 0) : Type 0 where
  finished : A → LightningSensor S → Ran S E A
  failed : E → LightningSensor S → Ran S E A
  panicked : Ran S E A

abbrev pub Action : Type 0 → Type 0 → Type 0 → Type 0
Action S E A = LightningSensor S → Ran S E A

abbrev pub pure : {S E A : Type 0} → A → Action S E A
pure a s = finished a s

infixl 5 ◌>>=◌ ◌>>◌
abbrev pub ◌>>=◌ : {S E A B : Type 0} → Action S E A → (A → Action S E B) → Action S E B
◌>>=◌ m f s = elim (m s) [
  | finished a s' ↦ f a s'
  | failed e s' ↦ failed e s'
  | panicked ↦ panicked
]

abbrev pub ◌>>◌ : {S E B : Type 0} → Action S E (Unit {0}) → Action S E B → Action S E B
m >> k = m >>= λ _. k

-- Code that may panic.
abbrev pub lift : {S E A : Type 0} → Outcome A → Action S E A
lift (returns a) s = finished a s
lift panics s = panicked

abbrev pub on_pins : {S E A : Type 0} → (S → Signal S E A) → Action S E A
on_pins act s = elim (act s.pins) [
  | done a p ↦ finished a (record s { pins = p })
  | refused e p ↦ failed e (record s { pins = p })
]

-- After an action that returns goes what follows it.
pub finished_then :
    {S E A B : Type 0} (m : Action S E A) (f : A → Action S E B) {a : A} {s s' : LightningSensor S}
    → m s ≡ finished a s'
    → ◌>>=◌ m f s ≡ f a s'
finished_then m f e = rw (e, ◌>>=◌) refl

pub lift_returns :
    {S E A : Type 0} {o : Outcome A} {a : A} (s : LightningSensor S)
    → o ≡ returns a
    → lift {E = E} o s ≡ finished a s
lift_returns s e = ap (λ o. lift o s) e

module _ {S E : Type 0} (pins : Pins S E) where
  open pins use {set_cs, set_clk, set_mosi, miso_is_high, sleep}

  -- The delay is that of 100 Hz.
  unfoldable pub new : S → Ran S E (Unit {0})
  new p =
      let s : LightningSensor S = record { pins = p; transaction_delay = 10 } in
      ◌>>◌ (on_pins (set_cs true)) (on_pins (set_clk false)) s

  abbrev pub sleep_for : ℕ → Action S E (Unit {0})
  sleep_for ms s = finished _ (record s { pins = sleep ms s.pins })

  abbrev pub wait : Action S E (Unit {0})
  wait s = sleep_for s.transaction_delay s

  abbrev pub begin : Action S E (Unit {0})
  begin = on_pins (set_cs false)

  abbrev pub end : Action S E (Unit {0})
  end = on_pins (set_cs true)

  unfoldable pub pulse_clk : Action S E (Unit {0})
  pulse_clk = do on_pins (set_clk true); wait; on_pins (set_clk false)

  unfoldable pub read_bit : Action S E Bool
  unfolding pulse_clk
  read_bit = do pulse_clk; wait; on_pins miso_is_high

  unfoldable pub write_bit : Bool → Action S E (Unit {0})
  unfolding pulse_clk
  write_bit b = do on_pins (set_mosi b); wait; pulse_clk

  -- The loops over the bits that are written, and over those that are read.
  unfoldable pub write_bits : List Bool → Action S E (Unit {0})
  write_bits [] s = finished _ s
  write_bits (b ∷ rest) s = (do write_bit b; wait; write_bits rest) s

  unfoldable pub read_bits : ℕ → Action S E (List Bool)
  read_bits zero s = finished [] s
  read_bits (suc n) s = (do b ← read_bit; wait; rest ← read_bits n; pure (b ∷ rest)) s

  -- The start of a transaction: two bits for its kind, and the lower six of the address.
  unfoldable pub address_bits : Bool → Bool → ℕ → Action S E (Unit {0})
  address_bits b0 b1 reg = do
    begin
    wait
    write_bit b0
    wait
    write_bit b1
    wait
    address ← lift (bits reg)
    write_bits (drop 2 address)

  unfoldable pub write_reg_raw : ℕ → ℕ → Action S E (Unit {0})
  write_reg_raw reg value = do
    address_bits false false reg
    written ← lift (bits value)
    write_bits written
    end
    wait

  unfoldable pub read_reg_raw : ℕ → Action S E ℕ
  read_reg_raw reg = do address_bits false true reg; read ← read_bits 8; pure (from_bits read)

  -- Bytes are shifted and complemented within 8 bits.
  unfoldable pub read_reg : (r : Register) → Action S E r.Repr
  read_reg r = do
    byte ← read_reg_raw r.address
    lift (r.from (bit_and byte r.mask / 2 ^ calculate_bitshift r.mask))

  unfoldable pub write_reg : (r : Register) → r.Repr → Action S E (Unit {0})
  write_reg r payload = do
    payload_byte ← lift (r.into payload)
    let bitshift = calculate_bitshift r.mask
    lift (if leb payload_byte (r.mask / 2 ^ bitshift) then returns _ else panics)
    current ← read_reg_raw r.address
    write_reg_raw r.address (bit_or (bit_xor current r.mask) (payload_byte * 2 ^ bitshift % 256))
