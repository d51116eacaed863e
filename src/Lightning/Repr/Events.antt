-- ===== src/Lightning/Repr/Events.antt =====
-- What the sensor reports, and the commands to it (hayselnut/src/lightning/repr.rs). `From<u8>` and
-- `Into<u8>` panic where the source has `unreachable!` or `panic!`.
use hayselnut.Common.{ℕ, ◌==◌, if◌then◌else◌, Outcome, returns, panics}

pub data IntType : Type 0 where
  distance_estimation_changed : IntType
  noise_level_too_high : IntType
  disturber_detected : IntType
  lightning : IntType
  invalid : ℕ → IntType

unfoldable pub int_type_from : ℕ → Outcome IntType
int_type_from byte =
    if byte == 0
    then returns distance_estimation_changed
    else if byte == 1
    then returns noise_level_too_high
    else if byte == 4
    then returns disturber_detected
    else if byte == 8
    then returns lightning
    else returns (invalid byte)

unfoldable pub int_type_into : IntType → Outcome ℕ
int_type_into t = panics

pub data DistanceEstimate : Type 0 where
  out_of_range : DistanceEstimate
  in_range : ℕ → DistanceEstimate
  overhead : DistanceEstimate

unfoldable pub distance_from : ℕ → Outcome DistanceEstimate
distance_from byte =
    if byte == 0b11_1111
    then returns out_of_range
    else if byte == 0b10_1000
    then returns (in_range 40)
    else if byte == 0b10_0101
    then returns (in_range 37)
    else if byte == 0b10_0010
    then returns (in_range 34)
    else if byte == 0b01_1111
    then returns (in_range 31)
    else if byte == 0b01_1011
    then returns (in_range 27)
    else if byte == 0b01_1000
    then returns (in_range 24)
    else if byte == 0b01_0100
    then returns (in_range 20)
    else if byte == 0b01_0001
    then returns (in_range 17)
    else if byte == 0b00_1110
    then returns (in_range 14)
    else if byte == 0b00_1100
    then returns (in_range 12)
    else if byte == 0b00_1010
    then returns (in_range 10)
    else if byte == 0b00_1000
    then returns (in_range 8)
    else if byte == 0b00_0110
    then returns (in_range 6)
    else if byte == 0b00_0101
    then returns (in_range 5)
    else if byte == 0b00_0001
    then returns overhead
    else panics

unfoldable pub distance_into : DistanceEstimate → Outcome ℕ
distance_into d = panics

pub data PresetDefaultCmd : Type 0 where
  preset_default_cmd : PresetDefaultCmd

unfoldable pub preset_default_from : ℕ → Outcome PresetDefaultCmd
preset_default_from byte = panics

unfoldable pub preset_default_into : PresetDefaultCmd → Outcome ℕ
preset_default_into c = returns 0x96

pub data CalibrateOscilatorsCmd : Type 0 where
  calibrate_oscilators_cmd : CalibrateOscilatorsCmd

unfoldable pub calibrate_from : ℕ → Outcome CalibrateOscilatorsCmd
calibrate_from byte = panics

unfoldable pub calibrate_into : CalibrateOscilatorsCmd → Outcome ℕ
calibrate_into c = returns 0x96
