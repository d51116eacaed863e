-- ===== src/Tsdb/Channel/Selected.antt =====
-- The entries that `select` keeps, in a chunk and in a chain of chunks.
use hayselnut.Common.{
  ℕ, zero, suc, ◌≤◌, ◌<◌, ◌^◌, ◌≡◌, ◌∙◌, refl, ap, List, [], ◌∷◌, ◌++◌, length, take, returns,
  arith, Option, some, get_elem?, ltb, ◌&&◌, if◌then◌else◌,
}
use hayselnut.Tsdb.Time.{ℤ, htime_to_unix}
use hayselnut.Tsdb.Channel.{DataEntry, ChunkMemory, select}
use hayselnut.Tsdb.Channel.History.{Ascending, Descending, Ascending-le}

-- The entries strictly between the two times.
abbrev pub between : {F : Type 0} → ℕ → ℕ → List (DataEntry F) → List (DataEntry F)
between t_lower t_upper [] = []
between t_lower t_upper (e ∷ es) =
    if ltb t_lower e.htime && ltb e.htime t_upper
    then e ∷ between t_lower t_upper es
    else between t_lower t_upper es

-- The chunks of a channel, one after the other.
abbrev pub joined : {F : Type 0} → List (List (DataEntry F)) → List (DataEntry F)
joined [] = []
joined (chunk ∷ older) = chunk ++ joined older

-- What is answered for an entry: its time as a date, and its reading.
module _ {F : Type 0} {DateTime : Type 0} (at : ℕ → DateTime) where
  abbrev pub answer : List (DataEntry F) → List (DateTime × F)
  answer [] = []
  answer (e ∷ es) = (at e.htime, e.reading) ∷ answer es

  pub answer-append : (xs ys : List (DataEntry F)) → answer (xs ++ ys) ≡ answer xs ++ answer ys
  answer-append [] ys = refl
  answer-append (x ∷ xs) ys = ap (λ zs. (at x.htime, x.reading) ∷ zs) (answer-append xs ys)

  pub length-answer : (es : List (DataEntry F)) → length (answer es) ≡ length es
  length-answer [] = refl
  length-answer (e ∷ es) = ap suc (length-answer es)

module _ {F : Type 0} {DateTime : Type 0} (from_timestamp : ℤ → Option DateTime) (at : ℕ → DateTime)
    (dates : (h : ℕ) → h < 2 ^ 32 → from_timestamp (htime_to_unix h) ≡ some (at h)) where
  module _ (memory : ChunkMemory F) (t_lower t_upper : ℕ) where
    pub select_lem :
        (lo hi : ℕ) (es : List (DataEntry F))
        → Ascending lo hi es
        → hi < 2 ^ 32
        → select memory from_timestamp t_lower t_upper es
          ≡ returns (answer at (between t_lower t_upper es))
    unfolding select
    select_lem lo hi [] a h = refl
    select_lem lo hi (e ∷ es) a h =
        let ih = select_lem e.htime hi es a.1 h in
        let d = dates e.htime (omega (arith, h, Ascending-le e.htime hi es a.1)) in
        ground (arith, ih, d)

pub first_of_take :
    {F : Type 0} (n : ℕ) (xs : List F) (e : F) (es : List F)
    → take n xs ≡ e ∷ es
    → get_elem? xs 0 ≡ some e
unfolding take
first_of_take zero xs e es h = ground (arith, h)
first_of_take (suc n) [] e es h = ground (arith, h)
first_of_take (suc n) (x ∷ xs) e es h = ground (arith, h)

module _ {F : Type 0} (t_lower t_upper : ℕ) where
  pub between-append :
      (xs ys : List (DataEntry F))
      → between t_lower t_upper (xs ++ ys)
        ≡ between t_lower t_upper xs ++ between t_lower t_upper ys
  between-append [] ys = refl
  between-append (x ∷ xs) ys = let ih = between-append xs ys in ground (arith, ih)

  pub length-between : (xs : List (DataEntry F)) → length (between t_lower t_upper xs) ≤ length xs
  length-between [] = omega arith
  length-between (x ∷ xs) = ground (arith, length-between xs)

  between_older :
      (lo hi : ℕ) (xs : List (DataEntry F))
      → Ascending lo hi xs
      → hi < t_lower
      → between t_lower t_upper xs ≡ []
  between_older lo hi [] a h = refl
  between_older lo hi (x ∷ xs) a h =
      let ih = between_older x.htime hi xs a.1 h in
      let le = Ascending-le x.htime hi xs a.1 in ground (arith, ih, le, h)

  pub between-joined_older :
      (hi : ℕ) (chunks : List (List (DataEntry F)))
      → Descending hi chunks
      → hi < t_lower
      → between t_lower t_upper (joined chunks) ≡ []
  between-joined_older hi [] d h = refl
  between-joined_older hi (chunk ∷ older) (lo, a, d) h =
      between-append chunk (joined older)
      ∙ rw (between_older lo hi chunk a h)
          (between-joined_older lo older d (omega (arith, Ascending-le lo hi chunk a)))
