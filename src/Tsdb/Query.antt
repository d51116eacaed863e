-- ===== src/Tsdb/Query.antt =====
-- The builder of queries (haysel/src/tsdb3/query.rs). The const parameter of `QueryBuilder` is an index
-- of the type, and the condition of each `impl` an argument of its functions. Where the source asserts
-- in debug builds, the model panics.
pub mod Staged
pub mod Reached
use hayselnut.Common.{
  ℕ, zero, suc, ◌+◌, ◌-◌, ◌*◌, ◌/◌, ◌%◌, ◌^◌, ◌≡◌, Bool, true, false, not, ◌&&◌, ◌||◌, ◌==◌,
  if◌then◌else◌, Option, none, some, Outcome, returns, panics, ◌>>=◌,
}

-- The bits of two numbers, from the lowest on, for the given number of bits.
abbrev pub and_bits : ℕ → ℕ → ℕ → ℕ
and_bits zero a b = 0
and_bits (suc w) a b = (a % 2) * (b % 2) + 2 * and_bits w (a / 2) (b / 2)

abbrev pub or_bits : ℕ → ℕ → ℕ → ℕ
or_bits zero a b = 0
or_bits (suc w) a b = (a % 2 + b % 2 - (a % 2) * (b % 2)) + 2 * or_bits w (a / 2) (b / 2)

-- The stages and flags, usize constants.
abbrev pub initial : ℕ
initial = 0

abbrev pub with_station_stage : ℕ
with_station_stage = 1

abbrev pub with_channel_stage : ℕ
with_channel_stage = 2

abbrev pub has_bolth_stage : ℕ
has_bolth_stage = 3

abbrev pub flag_max_num : ℕ
flag_max_num = 4

abbrev pub flag_after_t : ℕ
flag_after_t = 8

abbrev pub flag_before_t : ℕ
flag_before_t = 16

abbrev pub verified : ℕ
verified = 2 ^ 64 - 1

abbrev pub has_bolth : ℕ → Bool
has_bolth stage = and_bits 64 stage has_bolth_stage == has_bolth_stage

abbrev pub has_flag : ℕ → ℕ → Bool
has_flag stage flag = and_bits 64 stage flag == flag

abbrev pub with_channel_out_func : ℕ → ℕ
with_channel_out_func step =
    if step == with_station_stage then has_bolth_stage else with_channel_stage

abbrev pub with_station_out_func : ℕ → ℕ
with_station_out_func step =
    if step == with_channel_stage then has_bolth_stage else with_station_stage

abbrev pub is_none {ℓ} : {A : Type ℓ} → Option A → Bool
is_none none = true
is_none (some a) = false

abbrev pub unwrap {ℓ} : {A : Type ℓ} → Option A → Outcome A
unwrap none = panics
unwrap (some a) = returns a

pub record QueryBuilder (Uuid DateTime : Type 0) (step : ℕ) : Type 0 where
  pub station : Option Uuid
  pub channel : Option Uuid
  pub max_results : Option ℕ
  pub after_time : Option DateTime
  pub before_time : Option DateTime

-- `VerifyError::BeforeAfterAfter`, or the verified query.
pub data Verification (Uuid DateTime : Type 0) : Type 0 where
  before_after_after : Verification Uuid DateTime
  query_params : QueryBuilder Uuid DateTime verified → Verification Uuid DateTime

module _ {Uuid DateTime : Type 0} where
  abbrev pub new : QueryBuilder Uuid DateTime initial
  new = record {
    station = none;
    channel = none;
    max_results = none;
    after_time = none;
    before_time = none;
  }

  abbrev pub private_into :
      {step : ℕ} (new_step : ℕ)
      → QueryBuilder Uuid DateTime step
      → QueryBuilder Uuid DateTime new_step
  private_into new_step b = record {
    station = b.station;
    channel = b.channel;
    max_results = b.max_results;
    after_time = b.after_time;
    before_time = b.before_time;
  }

  unfoldable pub with_channel :
      (step : ℕ)
      → ((step == with_station_stage) || (step == initial)) ≡ true
      → Uuid
      → QueryBuilder Uuid DateTime step
      → Outcome (QueryBuilder Uuid DateTime (with_channel_out_func step))
  with_channel step h channel b =
      if is_none b.channel
      then returns (record (private_into (with_channel_out_func step) b) { channel = some channel })
      else panics

  unfoldable pub with_station :
      (step : ℕ)
      → ((step == with_channel_stage) || (step == initial)) ≡ true
      → Uuid
      → QueryBuilder Uuid DateTime step
      → Outcome (QueryBuilder Uuid DateTime (with_station_out_func step))
  with_station step h station b =
      if is_none b.station
      then returns (record (private_into (with_station_out_func step) b) { station = some station })
      else panics

  unfoldable pub with_max_results :
      (step : ℕ)
      → (has_bolth step && not (has_flag step flag_max_num)) ≡ true
      → ℕ
      → QueryBuilder Uuid DateTime step
      → Outcome (QueryBuilder Uuid DateTime (or_bits 64 step flag_max_num))
  with_max_results step h max_results b =
      if is_none b.max_results
      then returns (record (private_into (or_bits 64 step flag_max_num) b) {
        max_results = some max_results;
      })
      else panics

  unfoldable pub with_after :
      (step : ℕ)
      → (has_bolth step && not (has_flag step flag_after_t)) ≡ true
      → DateTime
      → QueryBuilder Uuid DateTime step
      → Outcome (QueryBuilder Uuid DateTime (or_bits 64 step flag_after_t))
  with_after step h after b =
      if is_none b.after_time
      then returns
          (record (private_into (or_bits 64 step flag_after_t) b) { after_time = some after })
      else panics

  unfoldable pub with_before :
      (step : ℕ)
      → (has_bolth step && not (has_flag step flag_before_t)) ≡ true
      → DateTime
      → QueryBuilder Uuid DateTime step
      → Outcome (QueryBuilder Uuid DateTime (or_bits 64 step flag_before_t))
  with_before step h before b =
      if is_none b.before_time
      then returns
          (record (private_into (or_bits 64 step flag_before_t) b) { before_time = some before })
      else panics

  -- chrono's `<` on times is a parameter.
  unfoldable pub verify :
      (DateTime → DateTime → Bool)
      → (step : ℕ) → has_bolth step ≡ true
      → QueryBuilder Uuid DateTime step
      → Verification Uuid DateTime
  verify earlier step h b =
      let inverted : Bool = elim b.before_time [
        | none ↦ false
        | some before ↦ elim b.after_time [ none ↦ false | some after ↦ earlier after before ]
      ] in
      if inverted then before_after_after else query_params (private_into verified b)

  -- The station, the channel, the maximum and the two times.
  unfoldable pub to_raw :
      QueryBuilder Uuid DateTime verified
      → Outcome (Uuid × Uuid × Option ℕ × Option DateTime × Option DateTime)
  to_raw q = unwrap q.station >>= λ station. unwrap q.channel >>= λ channel.
      returns (station, channel, q.max_results, q.after_time, q.before_time)
