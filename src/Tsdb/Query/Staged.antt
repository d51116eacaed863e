-- ===== src/Tsdb/Query/Staged.antt =====
-- The stages of the query builder say which fields are set: what the const parameter promises.
use hayselnut.Common.{
  ℕ, ◌+◌, ◌≡◌, ◌∙◌, refl, sym, ap, Bool, true, false, not, ◌&&◌, ◌||◌, ◌==◌, if◌then◌else◌, returns,
  panics, arith, ==_iff,
}
use hayselnut.Tsdb.Query.{
  QueryBuilder, initial, with_station_stage, with_channel_stage, flag_max_num, flag_after_t,
  flag_before_t, has_bolth, has_flag, or_bits, with_channel_out_func, with_station_out_func,
  is_none, with_channel, with_station, with_max_results, with_after, with_before,
}

-- The stage at which these fields are unset.
abbrev pub stage_of : Bool → Bool → Bool → Bool → Bool → ℕ
stage_of s c m a b =
    (if s then 0 else 1)
    + (if c then 0 else 2)
    + (if m then 0 else 4)
    + (if a then 0 else 8)
    + (if b then 0 else 16)

abbrev pub IsStaged : {Uuid DateTime : Type 0} (step : ℕ) → QueryBuilder Uuid DateTime step → Type 0
IsStaged step b =
    step
    ≡ stage_of (is_none b.station) (is_none b.channel) (is_none b.max_results)
        (is_none b.after_time) (is_none b.before_time)

-- A test of five Booleans that holds at all of them holds at each.
abbrev every : (Bool → Bool) → Bool
every f = f true && f false

every_at : (f : Bool → Bool) → every f ≡ true → (b : Bool) → f b ≡ true
every_at f h true = ground (arith, h)
every_at f h false = ground (arith, h)

every5 :
    (f : Bool → Bool → Bool → Bool → Bool → Bool)
    → every (λ s. every (λ c. every (λ m. every (λ a. every (f s c m a))))) ≡ true
    → (s c m a b : Bool) → f s c m a b ≡ true
every5 f h s c m a b =
    let h1 = every_at (λ s. every (λ c. every (λ m. every (λ a. every (f s c m a))))) h s in
    let h2 = every_at (λ c. every (λ m. every (λ a. every (f s c m a)))) h1 c in
    let h3 = every_at (λ m. every (λ a. every (f s c m a))) h2 m in
    let h4 = every_at (λ a. every (f s c m a)) h3 a in every_at (f s c m a) h4 b

-- What a condition on the stage implies, tested at every stage.
abbrev implies : Bool → Bool → Bool
implies p q = not p || q

implied : (p q r : Bool) → implies p (q && r) ≡ true → p ≡ true → (q ≡ true) × (r ≡ true)
implied p q r h e = ground (arith, h, e)

-- What a step of the builder asks of the stage, tested at every stage: the field that it sets is unset
-- (`free`), and the stage that comes out is the one without that mark.
stage_step :
    (asked : ℕ → Bool) (out : ℕ → ℕ) (free : Bool → Bool → Bool → Bool → Bool → Bool)
    (stage : Bool → Bool → Bool → Bool → Bool → ℕ)
    → every (λ s. every (λ c. every (λ m. every (λ a. every (λ b.
      implies
        (asked (stage_of s c m a b))
        (free s c m a b && (out (stage_of s c m a b) == stage s c m a b)))))))
      ≡ true
    → (s c m a b : Bool) → asked (stage_of s c m a b) ≡ true
    → (free s c m a b ≡ true) × (out (stage_of s c m a b) ≡ stage s c m a b)
stage_step asked out free stage h s c m a b e =
    let (unset, same) =
      implied _ _ _
        (every5
          (λ s c m a b.
            implies (asked (stage_of s c m a b))
              (free s c m a b && (out (stage_of s c m a b) == stage s c m a b)))
          h s c m a b)
        e in
    (unset, (==_iff _ _).0 same)

asserted :
    {A : Type 0} (test : Bool) (a : A)
    → test ≡ true
    → (if test then returns a else panics) ≡ returns a
asserted test a h = rw h refl

module _ {Uuid DateTime : Type 0} where
  -- Each step of the builder, on a builder whose stage says which fields are set, sets its field without
  -- a failed assertion, and the new stage says so.
  pub with_channel-IsStaged :
      (step : ℕ) (h : ((step == with_station_stage) || (step == initial)) ≡ true) (channel : Uuid)
      (b : QueryBuilder Uuid DateTime step)
      → IsStaged step b
      → (b' : QueryBuilder Uuid DateTime (with_channel_out_func step)) × (with_channel step h
            channel b
          ≡ returns b')
        × IsStaged (with_channel_out_func step) b'
  unfolding with_channel
  with_channel-IsStaged step h channel b e =
      let (unset, out) =
        stage_step (λ st. (st == with_station_stage) || (st == initial)) with_channel_out_func
          (λ s c m a b. c) (λ s c m a b. stage_of s false m a b) refl (is_none b.station)
          (is_none b.channel) (is_none b.max_results) (is_none b.after_time) (is_none b.before_time)
          (ap (λ st. (st == with_station_stage) || (st == initial)) (sym e) ∙ h) in
      (_, asserted (is_none b.channel) _ unset, ap with_channel_out_func e ∙ out)

  pub with_station-IsStaged :
      (step : ℕ) (h : ((step == with_channel_stage) || (step == initial)) ≡ true) (station : Uuid)
      (b : QueryBuilder Uuid DateTime step)
      → IsStaged step b
      → (b' : QueryBuilder Uuid DateTime (with_station_out_func step)) × (with_station step h
            station b
          ≡ returns b')
        × IsStaged (with_station_out_func step) b'
  unfolding with_station
  with_station-IsStaged step h station b e =
      let (unset, out) =
        stage_step (λ st. (st == with_channel_stage) || (st == initial)) with_station_out_func
          (λ s c m a b. s) (λ s c m a b. stage_of false c m a b) refl (is_none b.station)
          (is_none b.channel) (is_none b.max_results) (is_none b.after_time) (is_none b.before_time)
          (ap (λ st. (st == with_channel_stage) || (st == initial)) (sym e) ∙ h) in
      (_, asserted (is_none b.station) _ unset, ap with_station_out_func e ∙ out)

  pub with_max_results-IsStaged :
      (step : ℕ) (h : (has_bolth step && not (has_flag step flag_max_num)) ≡ true) (max_results : ℕ)
      (b : QueryBuilder Uuid DateTime step)
      → IsStaged step b
      → (b' : QueryBuilder Uuid DateTime (or_bits 64 step flag_max_num)) × (with_max_results step h
            max_results b
          ≡ returns b')
        × IsStaged (or_bits 64 step flag_max_num) b'
  unfolding with_max_results
  with_max_results-IsStaged step h max_results b e =
      let (unset, out) =
        stage_step (λ st. has_bolth st && not (has_flag st flag_max_num))
          (λ st. or_bits 64 st flag_max_num) (λ s c m a b. m) (λ s c m a b. stage_of s c false a b)
          refl (is_none b.station) (is_none b.channel) (is_none b.max_results)
          (is_none b.after_time) (is_none b.before_time)
          (ap (λ st. has_bolth st && not (has_flag st flag_max_num)) (sym e) ∙ h) in
      (_, asserted (is_none b.max_results) _ unset, ap (λ st. or_bits 64 st flag_max_num) e ∙ out)

  pub with_after-IsStaged :
      (step : ℕ) (h : (has_bolth step && not (has_flag step flag_after_t)) ≡ true)
      (after : DateTime) (b : QueryBuilder Uuid DateTime step)
      → IsStaged step b
      → (b' : QueryBuilder Uuid DateTime (or_bits 64 step flag_after_t)) × (with_after step h after
            b
          ≡ returns b')
        × IsStaged (or_bits 64 step flag_after_t) b'
  unfolding with_after
  with_after-IsStaged step h after b e =
      let (unset, out) =
        stage_step (λ st. has_bolth st && not (has_flag st flag_after_t))
          (λ st. or_bits 64 st flag_after_t) (λ s c m a b. a) (λ s c m a b. stage_of s c m false b)
          refl (is_none b.station) (is_none b.channel) (is_none b.max_results)
          (is_none b.after_time) (is_none b.before_time)
          (ap (λ st. has_bolth st && not (has_flag st flag_after_t)) (sym e) ∙ h) in
      (_, asserted (is_none b.after_time) _ unset, ap (λ st. or_bits 64 st flag_after_t) e ∙ out)

  pub with_before-IsStaged :
      (step : ℕ) (h : (has_bolth step && not (has_flag step flag_before_t)) ≡ true)
      (before : DateTime) (b : QueryBuilder Uuid DateTime step)
      → IsStaged step b
      → (b' : QueryBuilder Uuid DateTime (or_bits 64 step flag_before_t)) × (with_before step h
            before b
          ≡ returns b')
        × IsStaged (or_bits 64 step flag_before_t) b'
  unfolding with_before
  with_before-IsStaged step h before b e =
      let (unset, out) =
        stage_step (λ st. has_bolth st && not (has_flag st flag_before_t))
          (λ st. or_bits 64 st flag_before_t) (λ s c m a b. b) (λ s c m a b. stage_of s c m a false)
          refl (is_none b.station) (is_none b.channel) (is_none b.max_results)
          (is_none b.after_time) (is_none b.before_time)
          (ap (λ st. has_bolth st && not (has_flag st flag_before_t)) (sym e) ∙ h) in
      (_, asserted (is_none b.before_time) _ unset, ap (λ st. or_bits 64 st flag_before_t) e ∙ out)

  -- At the stages that have both, the station and the channel are set.
  pub has_bolth_lem :
      (step : ℕ) (b : QueryBuilder Uuid DateTime step)
      → has_bolth step ≡ true
      → IsStaged step b
      → (not (is_none b.station) ≡ true) × (not (is_none b.channel) ≡ true)
  has_bolth_lem step b h e =
      implied _ _ _
        (every5 (λ s c m a t. implies (has_bolth (stage_of s c m a t)) (not s && not c)) refl
          (is_none b.station) (is_none b.channel) (is_none b.max_results) (is_none b.after_time)
          (is_none b.before_time))
        (ap has_bolth (sym e) ∙ h)
