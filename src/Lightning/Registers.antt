-- ===== src/Lightning/Registers.antt =====
-- The registers of the sensor (hayselnut/src/lightning/registers): for each its type, address, access,
-- mask and default. Its name and its description, texts that nothing reads, are left out.
pub mod Conversions
use hayselnut.Common.{ℕ, Outcome}
use hayselnut.Lightning.Repr.{
  SensorLocation, location_from, location_into, CalibrateOscilatorsCmd, calibrate_from,
  calibrate_into, SetClearStatistics, clear_statistics_from, clear_statistics_into, OutputLcoOnIrq,
  lco_from, lco_into, OutputSrcoOnIrq, srco_from, srco_into, OutputTrcoOnIrq, trco_from, trco_into,
  DistanceEstimate, distance_from, distance_into, FrequencyDivisionRatio, division_from,
  division_into, TuningCapacitorValue, tuning_capacitor_from, tuning_capacitor_into, IntType,
  int_type_from, int_type_into, MaskDisturberEvent, mask_disturber_from, mask_disturber_into,
  MinimumLightningThreshold, minimum_from, minimum_into, NoiseFloorThreshold, noise_floor_from,
  noise_floor_into, PowerDownStatus, power_from, power_into, PresetDefaultCmd, preset_default_from,
  preset_default_into, SpikeRejectionSetting, spike_rejection_from, spike_rejection_into,
  SignalVerificationThreshold, signal_verification_from, signal_verification_into,
}

pub data Mode : Type 0 where
  read : Mode
  write : Mode
  read_write : Mode

-- The trait `Register`, with the conversions of its `Repr`.
pub record Register : Type 1 where
  pub Repr : Type 0
  pub from : ℕ → Outcome Repr
  pub into : Repr → Outcome ℕ
  pub address : ℕ
  pub mode : Mode
  pub mask : ℕ
  pub default_value : ℕ

abbrev pub afe_gain_boost : Register
afe_gain_boost = record {
  Repr = SensorLocation;
  from = location_from;
  into = location_into;
  address = 0x00;
  mode = read_write;
  mask = 0b0011_1110;
  default_value = 0b1_0010;
}

abbrev pub calibrate_oscillators : Register
calibrate_oscillators = record {
  Repr = CalibrateOscilatorsCmd;
  from = calibrate_from;
  into = calibrate_into;
  address = 0x3D;
  mode = write;
  mask = 0b1111_1111;
  default_value = 0b0000_0000;
}

abbrev pub clear_statistics : Register
clear_statistics = record {
  Repr = SetClearStatistics;
  from = clear_statistics_from;
  into = clear_statistics_into;
  address = 0x02;
  mode = read_write;
  mask = 0b0100_0000;
  default_value = 0b1;
}

abbrev pub display_lco_on_irq_pin : Register
display_lco_on_irq_pin = record {
  Repr = OutputLcoOnIrq;
  from = lco_from;
  into = lco_into;
  address = 0x08;
  mode = read_write;
  mask = 0b1000_0000;
  default_value = 0b0;
}

abbrev pub display_srco_on_irq_pin : Register
display_srco_on_irq_pin = record {
  Repr = OutputSrcoOnIrq;
  from = srco_from;
  into = srco_into;
  address = 0x08;
  mode = read_write;
  mask = 0b0100_0000;
  default_value = 0b0;
}

abbrev pub display_trco_on_irq_pin : Register
display_trco_on_irq_pin = record {
  Repr = OutputTrcoOnIrq;
  from = trco_from;
  into = trco_into;
  address = 0x08;
  mode = read_write;
  mask = 0b0010_0000;
  default_value = 0b0;
}

abbrev pub distance_estimation : Register
distance_estimation = record {
  Repr = DistanceEstimate;
  from = distance_from;
  into = distance_into;
  address = 0x07;
  mode = read;
  mask = 0b0011_1111;
  default_value = 0b00_0000;
}

abbrev pub frequency_division_ration_for_antenna_tuning : Register
frequency_division_ration_for_antenna_tuning = record {
  Repr = FrequencyDivisionRatio;
  from = division_from;
  into = division_into;
  address = 0x03;
  mode = read_write;
  mask = 0b1100_0000;
  default_value = 0b00;
}

abbrev pub internal_tuning_capacitors : Register
internal_tuning_capacitors = record {
  Repr = TuningCapacitorValue;
  from = tuning_capacitor_from;
  into = tuning_capacitor_into;
  address = 0x08;
  mode = read_write;
  mask = 0b0000_1111;
  default_value = 0b0000;
}

abbrev pub interrupt : Register
interrupt = record {
  Repr = IntType;
  from = int_type_from;
  into = int_type_into;
  address = 0x03;
  mode = read;
  mask = 0b0000_1111;
  default_value = 0b0000;
}

abbrev pub mask_disturber : Register
mask_disturber = record {
  Repr = MaskDisturberEvent;
  from = mask_disturber_from;
  into = mask_disturber_into;
  address = 0x03;
  mode = read_write;
  mask = 0b0010_0000;
  default_value = 0b0;
}

abbrev pub minimum_number_of_lightning : Register
minimum_number_of_lightning = record {
  Repr = MinimumLightningThreshold;
  from = minimum_from;
  into = minimum_into;
  address = 0x02;
  mode = read_write;
  mask = 0b0011_0000;
  default_value = 0b00;
}

abbrev pub noise_floor_level : Register
noise_floor_level = record {
  Repr = NoiseFloorThreshold;
  from = noise_floor_from;
  into = noise_floor_into;
  address = 0x01;
  mode = read_write;
  mask = 0b0111_0000;
  default_value = 0b010;
}

abbrev pub power_down : Register
power_down = record {
  Repr = PowerDownStatus;
  from = power_from;
  into = power_into;
  address = 0x00;
  mode = read_write;
  mask = 0b0000_0001;
  default_value = 0b0;
}

abbrev pub preset_default : Register
preset_default = record {
  Repr = PresetDefaultCmd;
  from = preset_default_from;
  into = preset_default_into;
  address = 0x3C;
  mode = write;
  mask = 0b1111_1111;
  default_value = 0b0000_0000;
}

abbrev pub spike_rejection : Register
spike_rejection = record {
  Repr = SpikeRejectionSetting;
  from = spike_rejection_from;
  into = spike_rejection_into;
  address = 0x02;
  mode = read_write;
  mask = 0b0000_1111;
  default_value = 0b0010;
}

abbrev pub watchdog_threshold : Register
watchdog_threshold = record {
  Repr = SignalVerificationThreshold;
  from = signal_verification_from;
  into = signal_verification_into;
  address = 0x01;
  mode = read_write;
  mask = 0b0000_1111;
  default_value = 0b0001;
}
