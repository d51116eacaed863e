-- ===== src/Tsdb/Query/Reached.antt =====
-- Every query that the builder makes (haysel/src/tsdb3/query.rs), whatever the order of its steps.
use hayselnut.Common.{
  ℕ, ◌≡◌, ◌∙◌, refl, sym, subst, true, not, ◌&&◌, ◌||◌, ◌==◌, Outcome, returns, returns_injective,
}
use hayselnut.Tsdb.Query.{
  QueryBuilder, initial, with_station_stage, with_channel_stage, flag_max_num, flag_after_t,
  flag_before_t, has_bolth, has_flag, or_bits, with_channel_out_func, with_station_out_func, new,
  with_channel, with_station, with_max_results, with_after, with_before,
}
use hayselnut.Tsdb.Query.Staged.{
  IsStaged, with_channel-IsStaged, with_station-IsStaged, with_max_results-IsStaged,
  with_after-IsStaged, with_before-IsStaged,
}

module _ {Uuid DateTime : Type 0} where
  -- The builders that the functions of the builder make from `new`.
  pub data Reached : (step : ℕ) → QueryBuilder Uuid DateTime step → Type 0 where
    newly : Reached initial new
    channelled :
        (step : ℕ) (h : ((step == with_station_stage) || (step == initial)) ≡ true) (a : Uuid)
        (b : QueryBuilder Uuid DateTime step)
        (b' : QueryBuilder Uuid DateTime (with_channel_out_func step))
        → Reached step b
        → with_channel step h a b ≡ returns b'
        → Reached (with_channel_out_func step) b'
    stationed :
        (step : ℕ) (h : ((step == with_channel_stage) || (step == initial)) ≡ true) (a : Uuid)
        (b : QueryBuilder Uuid DateTime step)
        (b' : QueryBuilder Uuid DateTime (with_station_out_func step))
        → Reached step b
        → with_station step h a b ≡ returns b'
        → Reached (with_station_out_func step) b'
    limited :
        (step : ℕ) (h : (has_bolth step && not (has_flag step flag_max_num)) ≡ true) (a : ℕ)
        (b : QueryBuilder Uuid DateTime step)
        (b' : QueryBuilder Uuid DateTime (or_bits 64 step flag_max_num))
        → Reached step b
        → with_max_results step h a b ≡ returns b'
        → Reached (or_bits 64 step flag_max_num) b'
    started :
        (step : ℕ) (h : (has_bolth step && not (has_flag step flag_after_t)) ≡ true) (a : DateTime)
        (b : QueryBuilder Uuid DateTime step)
        (b' : QueryBuilder Uuid DateTime (or_bits 64 step flag_after_t))
        → Reached step b
        → with_after step h a b ≡ returns b'
        → Reached (or_bits 64 step flag_after_t) b'
    ended :
        (step : ℕ) (h : (has_bolth step && not (has_flag step flag_before_t)) ≡ true) (a : DateTime)
        (b : QueryBuilder Uuid DateTime step)
        (b' : QueryBuilder Uuid DateTime (or_bits 64 step flag_before_t))
        → Reached step b
        → with_before step h a b ≡ returns b'
        → Reached (or_bits 64 step flag_before_t) b'

  -- Two results of one step are the same.
  carried :
      (step : ℕ) (o : Outcome (QueryBuilder Uuid DateTime step))
      (b : QueryBuilder Uuid DateTime step)
      → o ≡ returns b
      → (b' : QueryBuilder Uuid DateTime step) × (o ≡ returns b') × IsStaged step b'
      → IsStaged step b
  carried step o b h (b', e, s) = subst (IsStaged step) (returns_injective (sym e ∙ h)) s

  pub Reached-IsStaged :
      (step : ℕ) (b : QueryBuilder Uuid DateTime step) → Reached step b → IsStaged step b
  Reached-IsStaged _ _ newly = refl
  Reached-IsStaged _ _ (channelled step h a b b' r e) =
      carried (with_channel_out_func step) _ b' e
        (with_channel-IsStaged step h a b (Reached-IsStaged step b r))
  Reached-IsStaged _ _ (stationed step h a b b' r e) =
      carried (with_station_out_func step) _ b' e
        (with_station-IsStaged step h a b (Reached-IsStaged step b r))
  Reached-IsStaged _ _ (limited step h a b b' r e) =
      carried (or_bits 64 step flag_max_num) _ b' e
        (with_max_results-IsStaged step h a b (Reached-IsStaged step b r))
  Reached-IsStaged _ _ (started step h a b b' r e) =
      carried (or_bits 64 step flag_after_t) _ b' e
        (with_after-IsStaged step h a b (Reached-IsStaged step b r))
  Reached-IsStaged _ _ (ended step h a b b' r e) =
      carried (or_bits 64 step flag_before_t) _ b' e
        (with_before-IsStaged step h a b (Reached-IsStaged step b r))
