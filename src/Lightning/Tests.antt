-- ===== src/Lightning/Tests.antt =====
-- The theorems about the lightning sensor, at concrete bytes.
use hayselnut.Common.{arith, ◌≡◌, List, [], ◌∷◌, ◌++◌, All, length, drop, Bool, true, false}
use hayselnut.Lightning.Bits.{number}
use hayselnut.Lightning.Sensor.{finished, write_reg_raw}
use hayselnut.Lightning.Wires.{wires}
use hayselnut.Lightning.Frames.{sensor}
use hayselnut.Lightning.Transactions.{standing, begun, write_reg_raw_lem}
use hayselnut.Lightning.Reads.{
  shifted_settings, PanicsUnlessZero, shifted_settings-PanicsUnlessZero,
}

-- Eight low bits, and the byte 0x24: indoors, on.
abbrev quiet : List Bool
quiet = false ∷ false ∷ false ∷ false ∷ false ∷ false ∷ false ∷ false ∷ []

abbrev indoors : List Bool
indoors = false ∷ false ∷ true ∷ false ∷ false ∷ true ∷ false ∷ false ∷ []

write_reg_raw_lem_example :
    (six eight : List Bool) × (mosi' miso' : Bool) × (length six ≡ 6)
    × (number six ≡ 3)
    × (length eight ≡ 8)
    × (number eight ≡ 0x24)
    × (write_reg_raw {E = Unit {0}} wires 3 0x24 (sensor 10 (standing true false false [] [] []))
        ≡ finished _ (
            sensor 10 (
              standing true mosi' miso'
                (drop 8 (drop 8 []))
                []
                ((begun true [] ++ (false ∷ false ∷ six ++ eight)) ∷ []))))
write_reg_raw_lem_example =
    write_reg_raw_lem {E = Unit {0}} 10 [] 3 0x24 true false false [] [] (omega arith) (omega arith)

shifted_settings-PanicsUnlessZero_example : All (PanicsUnlessZero (Unit {0})) shifted_settings
shifted_settings-PanicsUnlessZero_example = shifted_settings-PanicsUnlessZero {E = Unit {0}}
