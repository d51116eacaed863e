-- ===== src/Lightning/Driver.antt =====
-- What the station does with the sensor: events and configuration (the other methods of `LightningSensor`,
-- hayselnut/src/lightning/mod.rs).
use hayselnut.Common.{ℕ, ◌-◌, true, false, bit_and}
use hayselnut.Lightning.Repr.{
  IntType, distance_estimation_changed, noise_level_too_high, disturber_detected, lightning,
  invalid, DistanceEstimate, PowerDownStatus, on, calibrate_oscilators_cmd, preset_default_cmd,
  SensorLocation, MinimumLightningThreshold, NoiseFloorThreshold, SignalVerificationThreshold,
  MaskDisturberEvent, SpikeRejectionSetting,
}
use hayselnut.Lightning.Registers
use hayselnut.Lightning.Sensor.{
  Pins, Action, pure, ◌>>=◌, ◌>>◌, sleep_for, read_reg_raw, write_reg_raw, read_reg, write_reg,
}

pub data Event : Type 0 where
  distance_estimation_changed_event : Event
  disturbance_detected_event : Event
  noise_level_too_high_event : Event
  lightning_event : DistanceEstimate → Event
  invalid_int_event : ℕ → Event

module _ {S E : Type 0} (pins : Pins S E) where
  unfoldable pub reset_int_reg : Action S E (Unit {0})
  reset_int_reg = do
    current ← read_reg_raw pins (Registers.interrupt).address
    write_reg_raw pins 0x03 (bit_and current (255 - (Registers.interrupt).mask))

  abbrev event_of : IntType → Action S E Event
  event_of distance_estimation_changed = pure distance_estimation_changed_event
  event_of disturber_detected = pure disturbance_detected_event
  event_of noise_level_too_high = pure noise_level_too_high_event
  event_of lightning = do
    sleep_for pins 2
    distance ← read_reg pins Registers.distance_estimation
    pure (lightning_event distance)
  event_of (invalid value) = pure (invalid_int_event value)

  unfoldable pub get_latest_event_and_reset : Action S E Event
  unfolding reset_int_reg
  get_latest_event_and_reset = do
    int_type ← read_reg pins Registers.interrupt
    reset_int_reg
    event_of int_type

  unfoldable pub set_status : PowerDownStatus → Action S E (Unit {0})
  set_status status = do write_reg pins Registers.power_down status; sleep_for pins 2

  unfoldable pub configure_oscilators : Action S E (Unit {0})
  configure_oscilators = do
    write_reg pins Registers.calibrate_oscillators calibrate_oscilators_cmd
    sleep_for pins 2
    write_reg pins Registers.display_trco_on_irq_pin (record { flag = true })
    sleep_for pins 2
    write_reg pins Registers.display_trco_on_irq_pin (record { flag = false })
    sleep_for pins 2

  unfoldable pub configure_defaults : Action S E (Unit {0})
  configure_defaults = write_reg pins Registers.preset_default preset_default_cmd

  unfoldable pub perform_initial_configuration : Action S E (Unit {0})
  unfolding set_status configure_oscilators configure_defaults
  perform_initial_configuration = do set_status on; configure_oscilators; configure_defaults

  unfoldable pub configure_sensor_placing : SensorLocation → Action S E (Unit {0})
  configure_sensor_placing placing = write_reg pins Registers.afe_gain_boost placing

  unfoldable pub configure_minimum_lightning_threshold :
      MinimumLightningThreshold → Action S E (Unit {0})
  configure_minimum_lightning_threshold threshold =
      write_reg pins Registers.minimum_number_of_lightning threshold

  unfoldable pub configure_noise_floor_threshold : NoiseFloorThreshold → Action S E (Unit {0})
  configure_noise_floor_threshold threshold = write_reg pins Registers.noise_floor_level threshold

  unfoldable pub configure_signal_verification_threshold :
      SignalVerificationThreshold → Action S E (Unit {0})
  configure_signal_verification_threshold threshold =
      write_reg pins Registers.watchdog_threshold threshold

  unfoldable pub configure_ignore_disturbances : MaskDisturberEvent → Action S E (Unit {0})
  configure_ignore_disturbances mask = write_reg pins Registers.mask_disturber mask

  unfoldable pub configure_spike_rejection : SpikeRejectionSetting → Action S E (Unit {0})
  configure_spike_rejection setting = write_reg pins Registers.spike_rejection setting
