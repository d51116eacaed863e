-- ===== src/Tsdb/Database/Queries.antt =====
-- What `query_data` (haysel/src/tsdb3/mod.rs) makes of the bounds of a query.
use hayselnut.Common.{
  ℕ, zero, suc, ◌≤◌, length, ◌-◌, ◌^◌, ◌≡◌, ◌∙◌, inl, inr, refl, subst, List, [], ◌∷◌, take, Bool,
  true, false, if◌then◌else◌, Option, none, some, Outcome, returns, panics, ◌>>=◌, arith,
  Option-cases,
}
use hayselnut.Tsdb.Time.{ℤ, pos, epoch, unix_to_htime, htime_to_unix, unix_to_htime-le, ◌≤ℤ◌}
use hayselnut.Tsdb.Channel.{
  DataEntry, ChannelData, Channel, ChunkMemory, select, scan, query_channel, htime_at,
}
use hayselnut.Tsdb.Query.{QueryBuilder, verified, query_params, to_raw, verify, has_bolth}
use hayselnut.Tsdb.Database.{Store, Db}
use hayselnut.Tsdb.Database.Readings.{
  assert_known, find_channel, query_bounds, qery_data_raw, query_data, default_to,
}

-- Code that panics whatever runs before it.
bind-panics :
    {A B : Type 0} (o : Outcome A) (f : A → Outcome B)
    → ((a : A) → o ≡ returns a → f a ≡ panics)
    → (o >>= f) ≡ panics
bind-panics panics f h = refl
bind-panics (returns a) f h = h a refl

to_raw_after :
    {Uuid DateTime : Type 0} (q : QueryBuilder Uuid DateTime verified)
    (raw : Uuid × Uuid × Option ℕ × Option DateTime × Option DateTime)
    → to_raw q ≡ returns raw
    → (raw.2 ≡ q.max_results) × (raw.3 ≡ q.after_time) × (raw.4 ≡ q.before_time)
unfolding to_raw
to_raw_after q raw h = ground (arith, h)

module _ {F DateTime : Type 0} (store : Store F) (timestamp_of : DateTime → ℤ)
    (from_timestamp : ℤ → Option DateTime) where
  bounds_at_epoch :
      (after before : DateTime)
      → timestamp_of after ≡ pos epoch
      → query_bounds store timestamp_of from_timestamp after before ≡ panics
  bounds_at_epoch after before h = unfold query_bounds unix_to_htime in rw h refl

  raw_at_epoch :
      (fuel station channel : ℕ) (after before : DateTime) (max : ℕ) (db : Db store)
      → timestamp_of after ≡ pos epoch
      → qery_data_raw store timestamp_of from_timestamp fuel station channel after before max db
        ≡ panics
  unfolding qery_data_raw
  raw_at_epoch fuel station channel after before max db h =
      rw (bounds_at_epoch after before h)
        (bind-panics (assert_known store station channel db) (λ known. panics) (λ known e. refl))

  default_to-none :
      (s : ℤ) (d : DateTime)
      → default_to store timestamp_of from_timestamp s none ≡ returns d
      → from_timestamp s ≡ some d
  default_to-none s d h = ground (arith, h)

  bounded_at_epoch :
      (fuel : ℕ) (raw : ℕ × ℕ × Option ℕ × Option DateTime × Option DateTime) (max : ℕ)
      (db : Db store) (after : DateTime)
      → timestamp_of after ≡ pos epoch
      → (default_to store timestamp_of from_timestamp (htime_to_unix (2 ^ 32 - 1)) raw.4
          >>= λ before.
              qery_data_raw store timestamp_of from_timestamp fuel raw.0 raw.1 after before max db)
        ≡ panics
  bounded_at_epoch fuel raw max db after h =
      bind-panics (default_to store timestamp_of from_timestamp (htime_to_unix (2 ^ 32 - 1)) raw.4)
        (λ before.
          qery_data_raw store timestamp_of from_timestamp fuel raw.0 raw.1 after before max db)
        (λ before e. raw_at_epoch fuel raw.0 raw.1 after before max db h)

  -- Where a date that chrono makes of a number of seconds has that number of seconds, `query_data` of a
  -- query without a bound from below panics: it falls back to the start of 2020, which is not a time of the
  -- database.
  pub query_data_unbounded :
      ((s : ℤ) (d : DateTime) → from_timestamp s ≡ some d → timestamp_of d ≡ s)
      → (fuel : ℕ) (query : QueryBuilder ℕ DateTime verified) (db : Db store)
      → query.after_time ≡ none
      → query_data store timestamp_of from_timestamp fuel query db ≡ panics
  unfolding query_data
  query_data_unbounded converts fuel query db h = bind-panics (to_raw query) _ (λ raw e.
      bind-panics (default_to store timestamp_of from_timestamp (pos epoch) raw.3) _ (λ after e'.
        bounded_at_epoch fuel raw _ db after (
          converts (pos epoch) after (
            default_to-none (pos epoch) after (
              subst
                (λ o. default_to store timestamp_of from_timestamp (pos epoch) o ≡ returns after)
                ((to_raw_after query raw e).1 ∙ h) e')))))

-- Whatever comes out, it is no reading: nothing is returned, or the empty list.
pub data IsNothing {A : Type 0} : Outcome (Option (List A)) → Type 0 where
  fails : IsNothing panics
  unfinished : IsNothing (returns none)
  nothing : IsNothing (returns (some []))

if-IsNothing :
    {A : Type 0} (test : Bool) (x y : Outcome (Option (List A)))
    → IsNothing x
    → IsNothing y
    → IsNothing (if test then x else y)
if-IsNothing true x y h k = h
if-IsNothing false x y h k = k

bind-IsNothing :
    {A B : Type 0} (o : Outcome B) (f : B → Outcome (Option (List A)))
    → ((b : B) → o ≡ returns b → IsNothing (f b))
    → IsNothing (o >>= f)
bind-IsNothing panics f h = fails
bind-IsNothing (returns b) f h = h b refl

module _ {F DateTime : Type 0} (memory : ChunkMemory F) (from_timestamp : ℤ → Option DateTime)
    (t_lower t_upper : ℕ) where
  select_nothing :
      t_upper ≤ t_lower
      → (es : List (DataEntry F)) → select memory from_timestamp t_lower t_upper es ≡ returns []
  unfolding select
  select_nothing le [] = refl
  select_nothing le (e ∷ es) = ground (arith, le, select_nothing le es)

  -- In an empty range the loop finds nothing.
  scan-IsNothing :
      t_upper ≤ t_lower
      → (m : memory.Memory) (max_results fuel num_valid t_newest t_oldest : ℕ)
        (latest : ChannelData F)
      → IsNothing (
          scan memory from_timestamp m t_lower t_upper max_results fuel [] num_valid t_newest
            t_oldest latest)
  unfolding scan
  scan-IsNothing le m max_results zero num_valid t_newest t_oldest latest = unfinished
  scan-IsNothing le m max_results (suc fuel) num_valid t_newest t_oldest latest =
      rw (select_nothing le (take num_valid latest.chunk)) (
        if-IsNothing _ _ _ nothing (
          if-IsNothing _ _ _ fails (
            if-IsNothing _ _ _ nothing (
              bind-IsNothing (memory.read m latest.next) _ (λ older e.
                bind-IsNothing (htime_at memory from_timestamp older.chunk (length older.chunk - 1))
                  _
                  (λ newest e'.
                    bind-IsNothing (htime_at memory from_timestamp older.chunk 0) _ (λ oldest e''.
                      scan-IsNothing le m max_results fuel (length older.chunk) newest oldest
                        older)))))))

module _ {F DateTime : Type 0} (store : Store F) (timestamp_of : DateTime → ℤ)
    (from_timestamp : ℤ → Option DateTime) where
  query_channel-IsNothing :
      (m : store.chunks.Memory) (t_lower t_upper max_results fuel : ℕ) (c : Channel F)
      → t_upper ≤ t_lower
      → IsNothing (query_channel store.chunks from_timestamp m t_lower t_upper max_results fuel c)
  unfolding query_channel
  query_channel-IsNothing m t_lower t_upper max_results fuel c le =
      bind-IsNothing (htime_at store.chunks from_timestamp c.latest.chunk 0) _ (λ oldest e.
        scan-IsNothing store.chunks from_timestamp t_lower t_upper le m max_results fuel c.num_used
          c.last_time oldest c.latest)

  -- Bounds that the conversion passes, of times that are not in order, are the same.
  query_bounds_le :
      (after before : DateTime) (bounds : ℕ × ℕ)
      → timestamp_of before ≤ℤ timestamp_of after
      → query_bounds store timestamp_of from_timestamp after before ≡ returns bounds
      → bounds.1 ≤ bounds.0
  unfolding query_bounds
  query_bounds_le after before bounds le e =
      elim (Option-cases (unix_to_htime (timestamp_of after))) [
        | inl missing ↦ ground (arith, missing, e)
        | inr (l, given) ↦ elim (Option-cases (unix_to_htime (timestamp_of before))) [
          | inl missing ↦ ground (arith, missing, given, e)
          | inr (u, given') ↦
              let down = unix_to_htime-le _ _ le given' given in
              ground (arith, given, given', down, e)
        ]
      ]

  default_to-some :
      (s : ℤ) (o : Option DateTime) (given d : DateTime)
      → o ≡ some given
      → default_to store timestamp_of from_timestamp s o ≡ returns d
      → given ≡ d
  default_to-some s o given d h e = ground (arith, h, e)

  verified_bounds :
      (earlier : DateTime → DateTime → Bool) (step : ℕ) (h : has_bolth step ≡ true)
      (builder : QueryBuilder ℕ DateTime step) (query : QueryBuilder ℕ DateTime verified)
      (after before : DateTime)
      → builder.after_time ≡ some after
      → builder.before_time ≡ some before
      → verify earlier step h builder ≡ query_params query
      → (query.after_time ≡ some after)
        × (query.before_time ≡ some before)
        × (earlier after before ≡ false)
  unfolding verify
  verified_bounds earlier step h builder query after before a b v = ground (arith, a, b, v)

  qery_data_raw-IsNothing :
      (fuel station channel : ℕ) (after before : DateTime) (max : ℕ) (db : Db store)
      → timestamp_of before ≤ℤ timestamp_of after
      → IsNothing
          (qery_data_raw store timestamp_of from_timestamp fuel station channel after before max db)
  unfolding qery_data_raw
  qery_data_raw-IsNothing fuel station channel after before max db le =
      bind-IsNothing (assert_known store station channel db) _ (λ known e.
        bind-IsNothing (query_bounds store timestamp_of from_timestamp after before) _
          (λ bounds converted. bind-IsNothing (find_channel store station channel db) _ (λ ptr e'.
            bind-IsNothing (store.read_channel db.memory ptr) _ (λ c e''.
              query_channel-IsNothing db.memory bounds.0 bounds.1 max fuel c
                (query_bounds_le after before bounds le converted)))))

  -- Where a time that is not earlier than another does not have fewer seconds, `query_data` of a query that
  -- `verify` lets pass and that has both bounds finds no reading: it panics, or answers the empty list, or
  -- the fuel runs out.
  pub query_data-IsNothing :
      (earlier : DateTime → DateTime → Bool)
      → ((s t : DateTime) → earlier s t ≡ false → timestamp_of t ≤ℤ timestamp_of s)
      → (step : ℕ) (h : has_bolth step ≡ true) (builder : QueryBuilder ℕ DateTime step)
        (query : QueryBuilder ℕ DateTime verified) (after before : DateTime)
      → builder.after_time ≡ some after
      → builder.before_time ≡ some before
      → verify earlier step h builder ≡ query_params query
      → (fuel : ℕ) (db : Db store)
      → IsNothing (query_data store timestamp_of from_timestamp fuel query db)
  unfolding query_data
  query_data-IsNothing earlier order step h builder query after before a b v fuel db =
      let (given, given', ordered) =
        verified_bounds earlier step h builder query after before a b v in
      let down = order after before ordered in
      bind-IsNothing (to_raw query) _ (λ raw e.
        let (_, from, to) = to_raw_after query raw e in
        bind-IsNothing (default_to store timestamp_of from_timestamp (pos epoch) raw.3) _ (λ s e'.
          bind-IsNothing
            (default_to store timestamp_of from_timestamp (htime_to_unix (2 ^ 32 - 1)) raw.4) _
            (λ t e''. qery_data_raw-IsNothing fuel raw.0 raw.1 s t _ db (
              subst (λ x. timestamp_of t ≤ℤ timestamp_of x)
                (default_to-some _ _ _ s (from ∙ given) e')
                (subst (λ x. timestamp_of x ≤ℤ timestamp_of after)
                  (default_to-some _ _ _ t (to ∙ given') e'') down)))))
