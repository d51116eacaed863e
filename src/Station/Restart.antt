-- ===== src/Station/Restart.antt =====
-- A station keeps its id (hayselnut/src/store.rs).
use hayselnut.Common.{
  ℕ, ◌-◌, ◌≤◌, ◌≡◌, ◌∙◌, refl, List, ◌++◌, Bool, true, false, le→leb, length, length-append,
  length-replicate, replicate, Option, none, some, arith,
}
use hayselnut.Mycelium.{to_be_bytes, from_be_bytes}
use hayselnut.Mycelium.Stream.{length-to_be_bytes}
use hayselnut.Station.{
  Key, station_store_version_id, station_store_id, stored, store_panics, Nvs, Form,
  StationStoreData, store_data_size, current_version, exists, read, write, init, version_of,
  read_after, read_data, check_version, both_or_none,
}

abbrev pub in_flash : Option (List ℕ) → Bool
in_flash none = false
in_flash (some bytes) = true

-- A flash that works: it has what was last set, and a value is read whole into a buffer that it fits in.
pub record IsFlash {E N : Type 0} (nvs : Nvs E N) (at : Key → N → Option (List ℕ)) : Type 0 where
  pub contains_lem : (k : Key) (n : N) → nvs.contains k n ≡ stored (in_flash (at k n)) n
  pub get_none : (k : Key) (size : ℕ) (n : N) → at k n ≡ none → nvs.get_raw k size n ≡ stored none n
  pub get_some :
      (k : Key) (size : ℕ) (n : N) (bytes : List ℕ)
      → at k n ≡ some bytes
      → length bytes ≤ size
      → nvs.get_raw k size n ≡ stored (some bytes) n
  pub sets_version :
      (bytes : List ℕ) (n : N)
      → (n' : N) × (nvs.set_raw station_store_version_id bytes n ≡ stored _ n')
        × (at station_store_version_id n' ≡ some bytes)
        × (at station_store_id n' ≡ at station_store_id n)
  pub sets_data :
      (bytes : List ℕ) (n : N)
      → (n' : N) × (nvs.set_raw station_store_id bytes n ≡ stored _ n')
        × (at station_store_id n' ≡ some bytes)
        × (at station_store_version_id n' ≡ at station_store_version_id n)

-- The form of the data fits, and is read also where zeros are behind it.
pub record IsForm (form : Form) (x : StationStoreData) (ser : List ℕ) : Type 0 where
  pub written : form.to_vec x ≡ some ser
  pub fits : length ser ≤ store_data_size
  pub read_back : (zeros : ℕ) → form.from_slice (ser ++ replicate zeros 0) ≡ some x

abbrev pub stored_form : List ℕ → List ℕ
stored_form ser = ser ++ replicate (store_data_size - length ser) 0

version_is_current :
    {E N : Type 0} (n : N)
    → check_version {E = E} {N = N} (to_be_bytes current_version) n ≡ stored _ n
unfolding to_be_bytes from_be_bytes
version_is_current n = refl

module _ {E N : Type 0} (nvs : Nvs E N) (at : Key → N → Option (List ℕ)) (flash : IsFlash nvs at)
    (form : Form) (x : StationStoreData) (ser : List ℕ) (is_form : IsForm form x ser) where
  -- The version and the data are in the flash.
  abbrev IsKept : N → Type 0
  IsKept n =
      (at station_store_version_id n ≡ some (to_be_bytes current_version))
      × (at station_store_id n ≡ some (stored_form ser))

  write_first :
      (n : N)
      → at station_store_version_id n ≡ none
      → (n' : N) × (write nvs form x n ≡ stored _ n') × IsKept n'
  unfolding write
  write_first n no_version =
      let (n1, set_version, version, _) = flash.sets_version (to_be_bytes current_version) n in
      let (n2, set_data, kept_data, kept_version) = flash.sets_data (stored_form ser) n1 in
      (
        n2,
        rw (flash.get_none station_store_version_id 8 n no_version, version_of)
            (rw (set_version, version_of)
              (rw (version_is_current {E = E} {N = N} n1) (
                rw is_form.written
                  (rw (le→leb (length ser) store_data_size is_form.fits) set_data)))),
        (kept_version ∙ version, kept_data),
      )

  read_kept : (n : N) → IsKept n → read nvs form n ≡ stored (some x) n
  unfolding read
  read_kept n (version, data_) =
      let size_of_version : length (to_be_bytes current_version) ≤ 8 =
        omega (arith, length-to_be_bytes current_version) in
      let size_of_data : length (stored_form ser) ≤ store_data_size = omega (
        arith,
        length-append ser (replicate (store_data_size - length ser) 0),
        length-replicate {A = ℕ} (store_data_size - length ser) 0,
        is_form.fits,
      ) in
      rw
        (
          flash.get_some station_store_version_id 8 n (to_be_bytes current_version) version
              size_of_version,
          read_after,
        )
        (rw (version_is_current {E = E} {N = N} n) (
          rw
            (
              flash.get_some station_store_id store_data_size n (stored_form ser) data_
                  size_of_data,
              read_data,
            )
            (rw (is_form.read_back (store_data_size - length ser)) refl)))

  init_kept : (drawn : ℕ) (n : N) → IsKept n → init nvs form drawn n ≡ stored x n
  unfolding init exists
  init_kept drawn n (version, data_) =
      rw (flash.contains_lem station_store_version_id n, both_or_none)
        (rw (flash.contains_lem station_store_id n, both_or_none)
          (rw (version, data_, in_flash, both_or_none) (rw (read_kept n (version, data_)) refl)))

  -- On a flash that works, what is written the first time, version and data, is what every later start finds,
  -- whatever id it would draw.
  pub init-write :
      (n : N)
      → at station_store_version_id n ≡ none
      → (n' : N) × (write nvs form x n ≡ stored _ n')
        × ((drawn : ℕ) → init nvs form drawn n' ≡ stored x n')
  init-write n no_version =
      let (n', written, kept) = write_first n no_version in
      (n', written, λ drawn. init_kept drawn n' kept)

  -- Where a station has neither a version nor data, its start draws an id and keeps it: every later start has
  -- this id, whatever it would draw.
  pub init_again :
      (n : N)
      → at station_store_version_id n ≡ none
      → at station_store_id n ≡ none
      → (n' : N) × (init nvs form x.station_uuid n ≡ stored x n')
        × ((drawn : ℕ) → init nvs form drawn n' ≡ stored x n')
  unfolding init exists
  init_again n no_version no_data =
      let (n', written, later) = init-write n no_version in
      (
        n',
        rw (flash.contains_lem station_store_version_id n, both_or_none)
            (rw (flash.contains_lem station_store_id n, both_or_none)
              (rw (no_version, no_data, in_flash, both_or_none) (rw written refl))),
        later,
      )

-- A station that is stopped in its first write, after the version was set and before the data was, panics
-- at every later start.
pub init_interrupted :
    {E N : Type 0} (nvs : Nvs E N) (at : Key → N → Option (List ℕ)) (flash : IsFlash nvs at)
    (form : Form) (n : N)
    → at station_store_id n ≡ none
    → (n' : N) × (nvs.set_raw station_store_version_id (to_be_bytes current_version) n
        ≡ stored _ n')
      × ((drawn : ℕ) → init nvs form drawn n' ≡ store_panics)
unfolding init exists
init_interrupted nvs at flash form n no_data =
    let (n', set_version, version, data_) = flash.sets_version (to_be_bytes current_version) n in
    let nothing : at station_store_id n' ≡ none = data_ ∙ no_data in
    (
      n',
      set_version,
      λ drawn.
          rw (flash.contains_lem station_store_version_id n', both_or_none)
            (rw (flash.contains_lem station_store_id n', both_or_none)
              (rw (version, nothing, in_flash, both_or_none) refl)),
    )
