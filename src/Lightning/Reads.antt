-- ===== src/Lightning/Reads.antt =====
-- What `read_reg` (hayselnut/src/lightning/mod.rs) makes of an answer.
use hayselnut.Common.{
  ℕ, ◌/◌, ◌^◌, ◌<◌, ◌≡◌, ◌≢◌, ◌∙◌, refl, ap, List, [], ◌∷◌, ◌++◌, All, length, Bool, true, false,
  arith, returns, bit_and, panics, passes_under, passes_under-at, ◌==◌, ◌||◌, Outcome,
}
use hayselnut.Lightning.Bits.{from_bits, calculate_bitshift, calculate_bitshift_zero, from_bits_lt}
use hayselnut.Lightning.Repr.{
  noise_floor_from, mask_disturber_from, clear_statistics_from, minimum_from, division_from,
  lco_from, srco_from, trco_from, noise_floor_new,
}
use hayselnut.Lightning.Registers.{Register}
use hayselnut.Lightning.Registers
use hayselnut.Lightning.Sensor.{lift, panicked, finished_then, read_reg_raw, read_reg}
use hayselnut.Lightning.Wires.{wires}
use hayselnut.Lightning.Frames.{sensor}
use hayselnut.Lightning.Transactions.{standing, read_reg_raw_lem}

-- The settings whose mask does not start at the lowest bit, but for the placing of the sensor.
abbrev pub shifted_settings : List Register
shifted_settings =
    Registers.noise_floor_level ∷ Registers.mask_disturber ∷ Registers.clear_statistics
    ∷ Registers.minimum_number_of_lightning ∷ Registers.frequency_division_ration_for_antenna_tuning
    ∷ Registers.display_lco_on_irq_pin ∷ Registers.display_srco_on_irq_pin
    ∷ Registers.display_trco_on_irq_pin ∷ []

abbrev is_panics : {A : Type 0} → Outcome A → Bool
is_panics panics = true
is_panics (returns a) = false

is_panics_lem : {A : Type 0} (o : Outcome A) → is_panics o ≡ true → o ≡ panics
is_panics_lem panics h = refl
is_panics_lem (returns a) h = ground (arith, h)

-- Any other value of the field than zero cannot be read.
abbrev Unreadable : Register → Type 0
Unreadable r =
    (r.mask < 256)
    × (passes_under 256
          (λ byte. (bit_and byte r.mask == 0) || is_panics (r.from (bit_and byte r.mask / 2 ^ 0)))
        ≡ true)

-- `read_reg` panics wherever the field of the register, as the sensor answers it, is not zero.
abbrev pub PanicsUnlessZero : Type 0 → Register → Type 0
PanicsUnlessZero E r =
    (delay : ℕ) (frames : List (List Bool)) (cs mosi miso : Bool)
    (quiet answer replies received : List Bool)
    → length quiet ≡ 8
    → length answer ≡ 8
    → bit_and (from_bits answer) r.mask ≢ 0
    → read_reg {E = E} wires r
        (sensor delay (standing cs mosi miso (quiet ++ (answer ++ replies)) received frames))
      ≡ panicked

Unreadable-PanicsUnlessZero : {E : Type 0} (r : Register) → Unreadable r → PanicsUnlessZero E r
unfolding read_reg
Unreadable-PanicsUnlessZero {E} r (small, table) delay frames cs mosi miso quiet answer replies
      received lq la ne =
    let (_, mosi1, miso1, received1, _, _, _, read) =
      read_reg_raw_lem {E = E} delay frames r.address cs mosi miso quiet answer replies received lq
        la in
    let row =
      passes_under-at 256
        (λ byte. (bit_and byte r.mask == 0) || is_panics (r.from (bit_and byte r.mask / 2 ^ 0)))
        (from_bits answer) table (from_bits_lt answer la) in
    let fails : r.from (bit_and (from_bits answer) r.mask / 2 ^ 0) ≡ panics =
      is_panics_lem _ (ground (arith, row, ne)) in
    finished_then (read_reg_raw wires r.address)
      (λ byte. lift (r.from (bit_and byte r.mask / 2 ^ calculate_bitshift r.mask))) read
    ∙ ap
        (λ shift.
          lift (r.from (bit_and (from_bits answer) r.mask / 2 ^ shift))
            (sensor delay (standing false mosi1 miso1 replies received1 frames)))
        (calculate_bitshift_zero r.mask small)
    ∙ ap (λ o. lift o (sensor delay (standing false mosi1 miso1 replies received1 frames))) fails

noise_floor_level-Unreadable : Unreadable Registers.noise_floor_level
unfolding passes_under noise_floor_from noise_floor_new
noise_floor_level-Unreadable = (omega arith, refl)

mask_disturber-Unreadable : Unreadable Registers.mask_disturber
unfolding passes_under mask_disturber_from
mask_disturber-Unreadable = (omega arith, refl)

clear_statistics-Unreadable : Unreadable Registers.clear_statistics
unfolding passes_under clear_statistics_from
clear_statistics-Unreadable = (omega arith, refl)

minimum_number_of_lightning-Unreadable : Unreadable Registers.minimum_number_of_lightning
unfolding passes_under minimum_from
minimum_number_of_lightning-Unreadable = (omega arith, refl)

frequency_division_ration_for_antenna_tuning-Unreadable :
    Unreadable Registers.frequency_division_ration_for_antenna_tuning
unfolding passes_under division_from
frequency_division_ration_for_antenna_tuning-Unreadable = (omega arith, refl)

display_lco_on_irq_pin-Unreadable : Unreadable Registers.display_lco_on_irq_pin
unfolding passes_under lco_from
display_lco_on_irq_pin-Unreadable = (omega arith, refl)

display_srco_on_irq_pin-Unreadable : Unreadable Registers.display_srco_on_irq_pin
unfolding passes_under srco_from
display_srco_on_irq_pin-Unreadable = (omega arith, refl)

display_trco_on_irq_pin-Unreadable : Unreadable Registers.display_trco_on_irq_pin
unfolding passes_under trco_from
display_trco_on_irq_pin-Unreadable = (omega arith, refl)

-- Of each register whose mask does not start at the lowest bit, but for the placing of the sensor, `read_reg`
-- panics wherever the sensor answers with a field that is not zero.
pub shifted_settings-PanicsUnlessZero : {E : Type 0} → All (PanicsUnlessZero E) shifted_settings
shifted_settings-PanicsUnlessZero = (
  Unreadable-PanicsUnlessZero _ noise_floor_level-Unreadable,
  (
    Unreadable-PanicsUnlessZero _ mask_disturber-Unreadable,
    (
      Unreadable-PanicsUnlessZero _ clear_statistics-Unreadable,
      (
        Unreadable-PanicsUnlessZero _ minimum_number_of_lightning-Unreadable,
        (
          Unreadable-PanicsUnlessZero _ frequency_division_ration_for_antenna_tuning-Unreadable,
          (
            Unreadable-PanicsUnlessZero _ display_lco_on_irq_pin-Unreadable,
            (
              Unreadable-PanicsUnlessZero _ display_srco_on_irq_pin-Unreadable,
              (Unreadable-PanicsUnlessZero _ display_trco_on_irq_pin-Unreadable, _),
            ),
          ),
        ),
      ),
    ),
  ),
)
