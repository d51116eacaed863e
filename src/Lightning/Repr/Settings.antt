-- ===== src/Lightning/Repr/Settings.antt =====
-- The settings of the sensor (hayselnut/src/lightning/repr.rs), by their bytes.
use hayselnut.Common.{ℕ, ltb, ◌==◌, if◌then◌else◌, Option, none, some, Outcome, returns, panics}

-- `unwrap` of a fallible `new`.
abbrev pub unwrap {ℓ} : {A : Type ℓ} → Option A → Outcome A
unwrap none = panics
unwrap (some a) = returns a

pub data SensorLocation : Type 0 where
  indoor : SensorLocation
  outdoor : SensorLocation

unfoldable pub location_from : ℕ → Outcome SensorLocation
location_from byte =
    if byte == 0b1_0010
    then returns indoor
    else if byte == 0b0_1110
    then returns outdoor
    else panics

unfoldable pub location_into : SensorLocation → Outcome ℕ
location_into indoor = returns 0b1_0010
location_into outdoor = returns 0b0_1110

pub data PowerDownStatus : Type 0 where
  on : PowerDownStatus
  off : PowerDownStatus

unfoldable pub power_from : ℕ → Outcome PowerDownStatus
power_from byte = if byte == 0 then returns on else if byte == 1 then returns off else panics

unfoldable pub power_into : PowerDownStatus → Outcome ℕ
power_into on = returns 0
power_into off = returns 1

pub data MinimumLightningThreshold : Type 0 where
  one : MinimumLightningThreshold
  five : MinimumLightningThreshold
  nine : MinimumLightningThreshold
  sixteen : MinimumLightningThreshold

unfoldable pub minimum_from : ℕ → Outcome MinimumLightningThreshold
minimum_from byte =
    if byte == 0
    then returns one
    else if byte == 1
    then returns five
    else if byte == 2
    then returns nine
    else if byte == 3
    then returns sixteen
    else panics

unfoldable pub minimum_into : MinimumLightningThreshold → Outcome ℕ
minimum_into one = returns 0
minimum_into five = returns 1
minimum_into nine = returns 2
minimum_into sixteen = returns 3

pub data FrequencyDivisionRatio : Type 0 where
  r16 : FrequencyDivisionRatio
  r32 : FrequencyDivisionRatio
  r64 : FrequencyDivisionRatio
  r128 : FrequencyDivisionRatio

unfoldable pub division_from : ℕ → Outcome FrequencyDivisionRatio
division_from byte =
    if byte == 0
    then returns r16
    else if byte == 1
    then returns r32
    else if byte == 2
    then returns r64
    else if byte == 3
    then returns r128
    else panics

unfoldable pub division_into : FrequencyDivisionRatio → Outcome ℕ
division_into r16 = returns 0
division_into r32 = returns 1
division_into r64 = returns 2
division_into r128 = returns 3

pub record NoiseFloorThreshold : Type 0 where
  pub value : ℕ

unfoldable pub noise_floor_new : ℕ → Option NoiseFloorThreshold
noise_floor_new value = if ltb 11 value then none else some (record { value = value })

unfoldable pub noise_floor_from : ℕ → Outcome NoiseFloorThreshold
unfolding noise_floor_new
noise_floor_from byte = unwrap (noise_floor_new byte)

unfoldable pub noise_floor_into : NoiseFloorThreshold → Outcome ℕ
noise_floor_into t = returns t.value

pub record SignalVerificationThreshold : Type 0 where
  pub value : ℕ

unfoldable pub signal_verification_new : ℕ → Option SignalVerificationThreshold
signal_verification_new value = if ltb 10 value then none else some (record { value = value })

unfoldable pub signal_verification_from : ℕ → Outcome SignalVerificationThreshold
unfolding signal_verification_new
signal_verification_from byte = unwrap (signal_verification_new byte)

unfoldable pub signal_verification_into : SignalVerificationThreshold → Outcome ℕ
signal_verification_into t = returns t.value

pub record SpikeRejectionSetting : Type 0 where
  pub value : ℕ

unfoldable pub spike_rejection_new : ℕ → Option SpikeRejectionSetting
spike_rejection_new value = if ltb 15 value then none else some (record { value = value })

unfoldable pub spike_rejection_from : ℕ → Outcome SpikeRejectionSetting
unfolding spike_rejection_new
spike_rejection_from byte = unwrap (spike_rejection_new byte)

unfoldable pub spike_rejection_into : SpikeRejectionSetting → Outcome ℕ
spike_rejection_into t = returns t.value

pub record TuningCapacitorValue : Type 0 where
  pub value : ℕ

unfoldable pub tuning_capacitor_new : ℕ → Option TuningCapacitorValue
tuning_capacitor_new value = if ltb 15 value then none else some (record { value = value })

unfoldable pub tuning_capacitor_from : ℕ → Outcome TuningCapacitorValue
unfolding tuning_capacitor_new
tuning_capacitor_from byte = unwrap (tuning_capacitor_new byte)

unfoldable pub tuning_capacitor_into : TuningCapacitorValue → Outcome ℕ
tuning_capacitor_into t = returns t.value
