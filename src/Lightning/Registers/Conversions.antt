-- ===== src/Lightning/Registers/Conversions.antt =====
-- The conversions of the registers that can be read and written.
use hayselnut.Common.{ℕ, ◌≡◌, refl, List, [], ◌∷◌, All, returns, arith}
use hayselnut.Lightning.Repr.{
  location_from, location_into, power_from, power_into, noise_floor_from, noise_floor_into,
  noise_floor_new, signal_verification_from, signal_verification_into, signal_verification_new,
  clear_statistics_from, clear_statistics_into, minimum_from, minimum_into, spike_rejection_from,
  spike_rejection_into, spike_rejection_new, division_from, division_into, mask_disturber_from,
  mask_disturber_into, lco_from, lco_into, srco_from, srco_into, trco_from, trco_into,
  tuning_capacitor_from, tuning_capacitor_into, tuning_capacitor_new,
}
use hayselnut.Lightning.Registers

-- What a byte is converted to is converted back to this byte, and the default can be converted.
abbrev pub IsFaithful : Registers.Register → Type 0
IsFaithful r =
    ((b : ℕ) (x : r.Repr) → r.from b ≡ returns x → r.into x ≡ returns b)
    × ((x : r.Repr) × (r.from r.default_value ≡ returns x))

-- The registers of the mode `ReadWrite`.
abbrev pub settings : List Registers.Register
settings =
    Registers.afe_gain_boost ∷ Registers.power_down ∷ Registers.noise_floor_level
    ∷ Registers.watchdog_threshold ∷ Registers.clear_statistics
    ∷ Registers.minimum_number_of_lightning ∷ Registers.spike_rejection
    ∷ Registers.frequency_division_ration_for_antenna_tuning ∷ Registers.mask_disturber
    ∷ Registers.display_lco_on_irq_pin ∷ Registers.display_srco_on_irq_pin
    ∷ Registers.display_trco_on_irq_pin ∷ Registers.internal_tuning_capacitors ∷ []

afe_gain_boost-IsFaithful : IsFaithful Registers.afe_gain_boost
unfolding location_from location_into
afe_gain_boost-IsFaithful = (λ b x h. ground (arith, h), (_, refl))

power_down-IsFaithful : IsFaithful Registers.power_down
unfolding power_from power_into
power_down-IsFaithful = (λ b x h. ground (arith, h), (_, refl))

noise_floor_level-IsFaithful : IsFaithful Registers.noise_floor_level
unfolding noise_floor_from noise_floor_into noise_floor_new
noise_floor_level-IsFaithful = (λ b x h. ground (arith, h), (_, refl))

watchdog_threshold-IsFaithful : IsFaithful Registers.watchdog_threshold
unfolding signal_verification_from signal_verification_into signal_verification_new
watchdog_threshold-IsFaithful = (λ b x h. ground (arith, h), (_, refl))

clear_statistics-IsFaithful : IsFaithful Registers.clear_statistics
unfolding clear_statistics_from clear_statistics_into
clear_statistics-IsFaithful = (λ b x h. ground (arith, h), (_, refl))

minimum_number_of_lightning-IsFaithful : IsFaithful Registers.minimum_number_of_lightning
unfolding minimum_from minimum_into
minimum_number_of_lightning-IsFaithful = (λ b x h. ground (arith, h), (_, refl))

spike_rejection-IsFaithful : IsFaithful Registers.spike_rejection
unfolding spike_rejection_from spike_rejection_into spike_rejection_new
spike_rejection-IsFaithful = (λ b x h. ground (arith, h), (_, refl))

frequency_division_ration_for_antenna_tuning-IsFaithful :
    IsFaithful Registers.frequency_division_ration_for_antenna_tuning
unfolding division_from division_into
frequency_division_ration_for_antenna_tuning-IsFaithful = (λ b x h. ground (arith, h), (_, refl))

mask_disturber-IsFaithful : IsFaithful Registers.mask_disturber
unfolding mask_disturber_from mask_disturber_into
mask_disturber-IsFaithful = (λ b x h. ground (arith, h), (_, refl))

display_lco_on_irq_pin-IsFaithful : IsFaithful Registers.display_lco_on_irq_pin
unfolding lco_from lco_into
display_lco_on_irq_pin-IsFaithful = (λ b x h. ground (arith, h), (_, refl))

display_srco_on_irq_pin-IsFaithful : IsFaithful Registers.display_srco_on_irq_pin
unfolding srco_from srco_into
display_srco_on_irq_pin-IsFaithful = (λ b x h. ground (arith, h), (_, refl))

display_trco_on_irq_pin-IsFaithful : IsFaithful Registers.display_trco_on_irq_pin
unfolding trco_from trco_into
display_trco_on_irq_pin-IsFaithful = (λ b x h. ground (arith, h), (_, refl))

internal_tuning_capacitors-IsFaithful : IsFaithful Registers.internal_tuning_capacitors
unfolding tuning_capacitor_from tuning_capacitor_into tuning_capacitor_new
internal_tuning_capacitors-IsFaithful = (λ b x h. ground (arith, h), (_, refl))

-- Of the settings of every register of the mode ReadWrite, by themselves, without the masks and shifts of the
-- driver: a byte that is converted to a setting without a panic is the byte that this setting is converted to, and
-- the byte that is the register's default is converted without a panic.
pub settings-IsFaithful : All IsFaithful settings
settings-IsFaithful = (
  afe_gain_boost-IsFaithful,
  (
    power_down-IsFaithful,
    (
      noise_floor_level-IsFaithful,
      (
        watchdog_threshold-IsFaithful,
        (
          clear_statistics-IsFaithful,
          (
            minimum_number_of_lightning-IsFaithful,
            (
              spike_rejection-IsFaithful,
              (
                frequency_division_ration_for_antenna_tuning-IsFaithful,
                (
                  mask_disturber-IsFaithful,
                  (
                    display_lco_on_irq_pin-IsFaithful,
                    (
                      display_srco_on_irq_pin-IsFaithful,
                      (
                        display_trco_on_irq_pin-IsFaithful,
                        (internal_tuning_capacitors-IsFaithful, _),
                      ),
                    ),
                  ),
                ),
              ),
            ),
          ),
        ),
      ),
    ),
  ),
)
