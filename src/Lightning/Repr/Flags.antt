-- ===== src/Lightning/Repr/Flags.antt =====
-- The settings of the sensor that are one bit (hayselnut/src/lightning/repr.rs).
use hayselnut.Common.{ℕ, Bool, true, false, ◌==◌, if◌then◌else◌, Outcome, returns, panics}

pub record MaskDisturberEvent : Type 0 where
  pub flag : Bool

unfoldable pub mask_disturber_from : ℕ → Outcome MaskDisturberEvent
mask_disturber_from byte =
    if byte == 0
    then returns (record { flag = false })
    else if byte == 1
    then returns (record { flag = true })
    else panics

unfoldable pub mask_disturber_into : MaskDisturberEvent → Outcome ℕ
mask_disturber_into t = returns (if t.flag then 1 else 0)

pub record OutputTrcoOnIrq : Type 0 where
  pub flag : Bool

unfoldable pub trco_from : ℕ → Outcome OutputTrcoOnIrq
trco_from byte =
    if byte == 0
    then returns (record { flag = false })
    else if byte == 1
    then returns (record { flag = true })
    else panics

unfoldable pub trco_into : OutputTrcoOnIrq → Outcome ℕ
trco_into t = returns (if t.flag then 1 else 0)

pub record OutputSrcoOnIrq : Type 0 where
  pub flag : Bool

unfoldable pub srco_from : ℕ → Outcome OutputSrcoOnIrq
srco_from byte =
    if byte == 0
    then returns (record { flag = false })
    else if byte == 1
    then returns (record { flag = true })
    else panics

unfoldable pub srco_into : OutputSrcoOnIrq → Outcome ℕ
srco_into t = returns (if t.flag then 1 else 0)

pub record OutputLcoOnIrq : Type 0 where
  pub flag : Bool

unfoldable pub lco_from : ℕ → Outcome OutputLcoOnIrq
lco_from byte =
    if byte == 0
    then returns (record { flag = false })
    else if byte == 1
    then returns (record { flag = true })
    else panics

unfoldable pub lco_into : OutputLcoOnIrq → Outcome ℕ
lco_into t = returns (if t.flag then 1 else 0)

pub record SetClearStatistics : Type 0 where
  pub flag : Bool

unfoldable pub clear_statistics_from : ℕ → Outcome SetClearStatistics
clear_statistics_from byte =
    if byte == 0
    then returns (record { flag = false })
    else if byte == 1
    then returns (record { flag = true })
    else panics

unfoldable pub clear_statistics_into : SetClearStatistics → Outcome ℕ
clear_statistics_into t = returns (if t.flag then 1 else 0)
