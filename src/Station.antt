-- ===== src/Station.antt =====
-- What a station keeps over a restart (hayselnut/src/store.rs). The flash's key-value store, the form of the data
-- and the ids that are drawn are parameters.
pub mod Restart
mod Tests
use hayselnut.Common.{
  ℕ, ◌+◌, ◌-◌, List, [], ◌∷◌, ◌++◌, Bool, true, false, ◌==◌, leb, length, replicate, Option, none,
  some, if◌then◌else◌,
}
use hayselnut.Mycelium.{to_be_bytes, from_be_bytes}

abbrev pub current_version : ℕ
current_version = 1

abbrev pub store_data_size : ℕ
store_data_size = 48

pub data Key : Type 0 where
  station_store_version_id station_store_id : Key

-- How a function ends: with a value, with an error of the flash, or with a panic.
pub data Stored (E N A : Type 0) : Type 0 where
  stored : A → N → Stored E N A
  esp_error : E → N → Stored E N A
  store_panics : Stored E N A

infixl 5 ◌>>=◌
abbrev pub ◌>>=◌ : {E N A B : Type 0} → Stored E N A → (A → N → Stored E N B) → Stored E N B
stored a n >>= f = f a n
esp_error e n >>= f = esp_error e n
store_panics >>= f = store_panics

pub record Nvs (E N : Type 0) : Type 0 where
  pub contains : Key → N → Stored E N Bool
  -- The value, read into a buffer of this size.
  pub get_raw : Key → ℕ → N → Stored E N (Option (List ℕ))
  pub set_raw : Key → List ℕ → N → Stored E N (Unit {0})

pub record StationStoreData : Type 0 where
  pub station_uuid : ℕ

pub record Form : Type 0 where
  pub to_vec : StationStoreData → Option (List ℕ)
  pub from_slice : List ℕ → Option StationStoreData

abbrev pub expect : {E N A : Type 0} → Option A → N → Stored E N A
expect none n = store_panics
expect (some a) n = stored a n

abbrev pub assert : {E N : Type 0} → Bool → N → Stored E N (Unit {0})
assert true n = stored _ n
assert false n = store_panics

-- The assertions on a version that is stored.
abbrev pub check_version : {E N : Type 0} → List ℕ → N → Stored E N (Unit {0})
check_version version n =
    assert (length version == 8) n >>= λ _ n. assert (from_be_bytes version == current_version) n

-- `store_buf[0..ser.len()].copy_from_slice(&ser)`
abbrev pub padded : {E N : Type 0} → List ℕ → N → Stored E N (List ℕ)
padded ser n =
    if leb (length ser) store_data_size
    then stored (ser ++ replicate (store_data_size - length ser) 0) n
    else store_panics

abbrev pub both_or_none : {E N : Type 0} → Bool → Bool → N → Stored E N Bool
both_or_none false false n = stored false n
both_or_none true true n = stored true n
both_or_none true false n = store_panics
both_or_none false true n = store_panics

module _ {E N : Type 0} (nvs : Nvs E N) (form : Form) where
  open nvs use {contains, get_raw, set_raw}
  open form use {to_vec, from_slice}

  unfoldable pub exists : N → Stored E N Bool
  exists n = contains station_store_version_id n >>= λ v n.
      contains station_store_id n >>= λ d n. both_or_none v d n

  abbrev pub read_data : Option (List ℕ) → N → Stored E N (Option StationStoreData)
  read_data none n = stored none n
  read_data (some store) n = expect (from_slice store) n >>= λ x n. stored (some x) n

  abbrev pub read_after : Option (List ℕ) → N → Stored E N (Option StationStoreData)
  read_after none n = stored none n
  read_after (some version) n =
      check_version version n >>= λ _ n. get_raw station_store_id store_data_size n >>= read_data

  unfoldable pub read : N → Stored E N (Option StationStoreData)
  read n = get_raw station_store_version_id 8 n >>= read_after

  -- The version that is there, or the one that is written now.
  abbrev pub version_of : Option (List ℕ) → N → Stored E N (List ℕ)
  version_of (some version) n = stored version n
  version_of none n = set_raw station_store_version_id (to_be_bytes current_version) n >>= λ _ n.
      stored (to_be_bytes current_version) n

  unfoldable pub write : StationStoreData → N → Stored E N (Unit {0})
  write store n = get_raw station_store_version_id 8 n >>= version_of >>= check_version >>= λ _ n.
      expect (to_vec store) n >>= padded >>= λ store_buf n. set_raw station_store_id store_buf n

  -- `StationStoreCached::init`, with the id that is drawn if one is; the result is the cache.
  abbrev pub init_as : ℕ → Bool → N → Stored E N StationStoreData
  init_as drawn true n = read n >>= expect
  init_as drawn false n = write (record { station_uuid = drawn }) n >>= λ _ n.
      stored (record { station_uuid = drawn }) n

  unfoldable pub init : ℕ → N → Stored E N StationStoreData
  init drawn n = exists n >>= init_as drawn

  -- `write` and `modify` of the cached store, with the cache.
  abbrev pub write_cached : StationStoreData → N → Stored E N StationStoreData
  write_cached new n = write new n >>= λ _ n. stored new n

  unfoldable pub modify :
      (StationStoreData → StationStoreData) → StationStoreData → N → Stored E N StationStoreData
  modify f cache n =
      if (f cache).station_uuid == cache.station_uuid
      then stored cache n
      else write_cached (f cache) n
