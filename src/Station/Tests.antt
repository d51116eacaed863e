-- ===== src/Station/Tests.antt =====
-- A flash in memory, and data of one byte.
use hayselnut.Common.{
  ℕ, ◌≡◌, refl, List, [], ◌∷◌, Option, none, some, leb, le→leb, length, if◌then◌else◌, arith,
}
use hayselnut.Station.{
  Key, station_store_version_id, station_store_id, Stored, stored, store_panics, Nvs, Form,
  StationStoreData, init,
}
use hayselnut.Station.Restart.{in_flash, IsFlash, IsForm, init_again}

record Cells : Type 0 where
  version : Option (List ℕ)
  kept : Option (List ℕ)

abbrev at : Key → Cells → Option (List ℕ)
at station_store_version_id n = n.version
at station_store_id n = n.kept

abbrev taken : Option (List ℕ) → ℕ → Cells → Stored ℕ Cells (Option (List ℕ))
taken none size n = stored none n
taken (some bytes) size n = if leb (length bytes) size then stored (some bytes) n else store_panics

abbrev set_at : Key → List ℕ → Cells → Cells
set_at station_store_version_id bytes n = record n { version = some bytes }
set_at station_store_id bytes n = record n { kept = some bytes }

abbrev in_memory : Nvs ℕ Cells
in_memory = record {
  contains = λ k n. stored (in_flash (at k n)) n;
  get_raw = λ k size n. taken (at k n) size n;
  set_raw = λ k bytes n. stored _ (set_at k bytes n);
}

in_memory-IsFlash : IsFlash in_memory at
in_memory-IsFlash = record {
  contains_lem = λ k n. refl;
  get_none = λ k size n e. rw e refl;
  get_some = λ k size n bytes e fits. rw (e, taken) (rw (le→leb (length bytes) size fits) refl);
  sets_version = λ bytes n. (record n { version = some bytes }, refl, refl, refl);
  sets_data = λ bytes n. (record n { kept = some bytes }, refl, refl, refl);
}

abbrev first_byte : List ℕ → Option StationStoreData
first_byte [] = none
first_byte (b ∷ bs) = some (record { station_uuid = b })

abbrev byte_form : Form
byte_form = record { to_vec = λ x. some (x.station_uuid ∷ []); from_slice = first_byte }

seven-IsForm : IsForm byte_form (record { station_uuid = 7 }) (7 ∷ [])
seven-IsForm = record { written = refl; fits = omega arith; read_back = λ zeros. refl }

abbrev nothing_kept : Cells
nothing_kept = record { version = none; kept = none }

init_again_example :
    (n' : Cells) × (init in_memory byte_form 7 nothing_kept
      ≡ stored (record { station_uuid = 7 }) n')
    × ((drawn : ℕ) → init in_memory byte_form drawn n' ≡ stored (record { station_uuid = 7 }) n')
init_again_example =
    init_again in_memory at in_memory-IsFlash byte_form (record { station_uuid = 7 }) (7 ∷ [])
      seven-IsForm nothing_kept refl refl
