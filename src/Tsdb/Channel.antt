-- ===== src/Tsdb/Channel.antt =====
-- A channel's readings: the parts of `insert_data` and `qery_data_raw` (haysel/src/tsdb3/mod.rs) that
-- work on the channel, over `Channel` and `ChannelData` (haysel/src/tsdb3/repr.rs). The newest
-- readings stand in the channel itself; full chunks hang behind it as a linked list.
pub mod History
pub mod Insert
pub mod Selected
pub mod Scan
use hayselnut.Common.{
  ℕ, zero, suc, ◌+◌, ◌-◌, ◌≡◌, ◌≢◌, List, [], ◌∷◌, ◌++◌, Bool, true, false, not, ◌&&◌, ◌||◌, ◌==◌,
  ltb, leb, if◌then◌else◌, length, get_elem?, set, take, Option, none, some, Outcome, returns,
  panics, ◌>>=◌,
}
use hayselnut.Tsdb.Time.{ℤ, htime_to_unix}

-- A reading is an f32, a type that is not looked into.
pub record DataEntry (F : Type 0) : Type 0 where
  pub htime : ℕ
  pub reading : F

-- A `Ptr<ChannelData>` is its address; 0 is null.
pub record ChannelData (F : Type 0) : Type 0 where
  pub chunk : List (DataEntry F)
  pub next : ℕ

pub record Channel (F : Type 0) : Type 0 where
  pub num_used : ℕ
  pub last_time : ℕ
  pub latest : ChannelData F

-- The number of entries of a chunk.
abbrev pub chunk_len : ℕ
chunk_len = 512

-- What the channel asks of the allocator: `read`, `alloc` and the write through the reference that
-- `alloc` gives, at `ChannelData`. A new chunk is at an address that is not null and that nothing can
-- be read from; reading elsewhere is as before.
pub record ChunkMemory (F : Type 0) : Type 1 where
  pub Memory : Type 0
  pub read : Memory → ℕ → Outcome (ChannelData F)
  pub alloc_with : Memory → ChannelData F → Outcome (ℕ × Memory)
  pub alloc-ne_null :
      (m m' : Memory) (p : ℕ) (d : ChannelData F) → alloc_with m d ≡ returns (p, m') → p ≢ 0
  pub read-alloc :
      (m m' : Memory) (p : ℕ) (d : ChannelData F)
      → alloc_with m d ≡ returns (p, m')
      → read m' p ≡ returns d
  pub read-alloc_old :
      (m m' : Memory) (p q : ℕ) (d e : ChannelData F)
      → alloc_with m d ≡ returns (p, m')
      → read m q ≡ returns e
      → read m' q ≡ returns e

-- `chunk[i] = entry`, which panics out of range.
abbrev pub write_at {ℓ} : {A : Type ℓ} → List A → ℕ → A → Outcome (List A)
write_at xs i v = if ltb i (length xs) then returns (set xs i v) else panics

-- `Channel::is_full`
unfoldable pub is_full : {F : Type 0} → Channel F → Outcome Bool
is_full c =
    if leb c.num_used (length c.latest.chunk)
    then returns (c.num_used == length c.latest.chunk)
    else panics

module _ {F : Type 0} (memory : ChunkMemory F) where
  open memory use {Memory, read, alloc_with}

  -- `insert_data`, from the assertion on the channel's last time on.
  unfoldable pub insert_entry : ℕ → F → Channel F → Memory → Outcome (Channel F × Memory)
  unfolding is_full
  insert_entry timestamp reading c m =
      let entry : DataEntry F = record { htime = timestamp; reading = reading } in
      let timed : Channel F = record c { last_time = timestamp } in
      let moved = alloc_with m c.latest >>= λ allocated.
      write_at c.latest.chunk 0 entry >>= λ chunk. returns (
        record timed { num_used = 1; latest = record { chunk = chunk; next = allocated.0 } },
        allocated.1,
      ) in
      let added = write_at c.latest.chunk c.num_used entry >>= λ chunk. returns (
        record timed {
          num_used = c.num_used + 1;
          latest = record { chunk = chunk; next = c.latest.next };
        },
        m,
      ) in
      if leb c.last_time timestamp
      then (is_full timed >>= λ full. if full then moved else added)
      else panics

  -- A `DateTime` is made by chrono's `from_timestamp`, which is a parameter.
  module _ {DateTime : Type 0} (from_timestamp : ℤ → Option DateTime) where
    -- The closures of `filter` and `map` in `qery_data_raw`.
    abbrev pub in_range : ℕ → ℕ → DataEntry F → Bool
    in_range t_lower t_upper entry = ltb t_lower entry.htime && ltb entry.htime t_upper

    abbrev pub dated : DataEntry F → Outcome (DateTime × F)
    dated entry = elim (from_timestamp (htime_to_unix entry.htime)) [
      | none ↦ panics
      | some time ↦ returns (time, entry.reading)
    ]

    unfoldable pub select : ℕ → ℕ → List (DataEntry F) → Outcome (List (DateTime × F))
    select t_lower t_upper [] = returns []
    select t_lower t_upper (entry ∷ rest) =
        let more = select t_lower t_upper rest in
        if in_range t_lower t_upper entry
        then (dated entry >>= λ d. more >>= λ ds. returns (d ∷ ds))
        else more

    abbrev pub htime_at : List (DataEntry F) → ℕ → Outcome ℕ
    htime_at chunk i = elim (get_elem? chunk i) [ none ↦ panics | some entry ↦ returns entry.htime ]

    -- The loop of `qery_data_raw`, on fuel: `none` is returned where it runs out.
    module _ (m : Memory) (t_lower t_upper max_results : ℕ) where
      unfoldable pub scan :
          ℕ
          → List (DateTime × F)
          → ℕ
          → ℕ
          → ℕ
          → ChannelData F
          → Outcome (Option (List (DateTime × F)))
      scan zero results num_valid t_newest t_oldest latest = returns none
      scan (suc fuel) results num_valid t_newest t_oldest latest =
          if ltb t_newest t_lower || ltb t_upper t_oldest || ltb max_results (length results)
          then returns (some results)
          else if ltb (length latest.chunk) num_valid
          then panics
          else (select t_lower t_upper (take num_valid latest.chunk) >>= λ found.
              if latest.next == 0
              then returns (some (results ++ found))
              else (read m latest.next >>= λ older.
                  htime_at older.chunk (length older.chunk - 1) >>= λ newest.
                  htime_at older.chunk 0 >>= λ oldest.
                  scan fuel (results ++ found) (length older.chunk) newest oldest older))

      -- `qery_data_raw`, from the channel on.
      unfoldable pub query_channel : ℕ → Channel F → Outcome (Option (List (DateTime × F)))
      query_channel fuel c = htime_at c.latest.chunk 0 >>= λ oldest.
          scan fuel [] c.num_used c.last_time oldest c.latest
