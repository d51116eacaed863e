-- ===== src/Tsdb/Time.antt =====
-- Times as the database stores them: seconds since the start of 2020, in a u32
-- (`unix_to_htime` and `htime_to_unix` of haysel/src/tsdb3/repr.rs).
use hayselnut.Common.{
  ℕ, ◌+◌, ◌-◌, ◌^◌, ◌≤◌, ◌<◌, ◌≡◌, ltb, leb, if◌then◌else◌, Option, none, some, arith,
}

-- An i64: `negsuc n` is -(n + 1).
pub data ℤ : Type 0 where
  pos : ℕ → ℤ
  negsuc : ℕ → ℤ

infix 50 ◌≤ℤ◌
abbrev pub ◌≤ℤ◌ : ℤ → ℤ → Type 0
pos a ≤ℤ pos b = a ≤ b
pos a ≤ℤ negsuc b = 1 ≤ 0
negsuc a ≤ℤ pos b = Unit
negsuc a ≤ℤ negsuc b = b ≤ a

-- EPOCH
abbrev pub epoch : ℕ
epoch = 1577836800

unfoldable pub unix_to_htime : ℤ → Option ℕ
unix_to_htime (negsuc n) = none
unix_to_htime (pos time) =
    if leb time epoch
    then none
    else let diff = time - epoch in if ltb (2 ^ 32 - 1) diff then none else some diff

unfoldable pub htime_to_unix : ℕ → ℤ
htime_to_unix htime = pos (htime + epoch)

-- Every u32 but 0 comes back from its unix time. The time 0, the start of 2020 itself, does not.
pub unix_to_htime-htime_to_unix :
    (htime : ℕ)
    → htime < 2 ^ 32
    → unix_to_htime (htime_to_unix htime) ≡ (if ltb 0 htime then some htime else none)
unfolding unix_to_htime htime_to_unix
unix_to_htime-htime_to_unix htime h = ground arith

-- Where a unix time converts, the result is a u32 that is not 0 and stands for that time.
pub htime_to_unix-unix_to_htime :
    (time : ℤ) {htime : ℕ}
    → unix_to_htime time ≡ some htime
    → (htime_to_unix htime ≡ time) × (0 < htime) × (htime < 2 ^ 32)
unfolding unix_to_htime htime_to_unix
htime_to_unix-unix_to_htime (pos time) h = ground arith
htime_to_unix-unix_to_htime (negsuc n) h = ground arith

-- Conversion keeps the order.
pub unix_to_htime-le :
    (s t : ℤ) {h k : ℕ} → s ≤ℤ t → unix_to_htime s ≡ some h → unix_to_htime t ≡ some k → h ≤ k
unfolding unix_to_htime
unix_to_htime-le (pos s) (pos t) le e f = ground (arith, le, e, f)
unix_to_htime-le (pos s) (negsuc t) le e f = absurd (omega (arith, le))
unix_to_htime-le (negsuc s) t le e f = ground (arith, e)
