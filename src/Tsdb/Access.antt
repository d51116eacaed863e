-- ===== src/Tsdb/Access.antt =====
-- Slices of one memory, handed out and taken back (`MultipleAccess` of
-- haysel/src/tsdb3/alloc/access.rs). A pointer is its address, a slice the range of its addresses.
pub mod Overlap
use hayselnut.Common.{
  ℕ, ◌+◌, ◌-◌, ◌^◌, List, [], ◌∷◌, ◌++◌, Bool, true, false, not, ◌&&◌, ◌||◌, ◌==◌, leb, ltb,
  if◌then◌else◌, Option, none, some, Outcome, returns, panics,
}

pub record Range : Type 0 where
  pub start : ℕ
  pub end : ℕ

-- `Range::contains`
abbrev pub contains : Range → ℕ → Bool
contains r x = leb r.start x && ltb x r.end

abbrev pub same_range : Range → Range → Bool
same_range r s = (r.start == s.start) && (r.end == s.end)

pub record MultipleAccess : Type 0 where
  pub len : ℕ
  pub ptr : ℕ
  pub access : List Range

abbrev pub new : ℕ → ℕ → MultipleAccess
new ptr len = record { len = len; ptr = ptr; access = [] }

abbrev pub is_overlapping : List Range → Range → Bool
is_overlapping [] with_ = false
is_overlapping (range ∷ access) with_ =
    contains range with_.start || contains range with_.end || is_overlapping access with_

-- isize::MAX is 2^63 - 1.
unfoldable pub get : Range → MultipleAccess → Outcome (MultipleAccess × Range)
get range a =
    let ptr_range : Range = record { start = a.ptr + range.start; end = a.ptr + range.end } in
    if ltb range.start range.end
      && ltb range.end a.len
      && ltb range.end (2 ^ 63 - 1)
      && ltb (range.end + a.ptr) (2 ^ 64)
      && not (is_overlapping a.access ptr_range)
    then returns (record a { access = a.access ++ (ptr_range ∷ []) }, ptr_range)
    else panics

-- `access.remove` at the first range that is the same.
abbrev pub remove_first : Range → List Range → Option (List Range)
remove_first slice [] = none
remove_first slice (range ∷ access) =
    let rest = remove_first slice access in
    if same_range range slice
    then some access
    else elim rest [ none ↦ none | some access' ↦ some (range ∷ access') ]

unfoldable pub put : Range → MultipleAccess → Outcome MultipleAccess
put slice a = elim (remove_first slice a.access) [
  | none ↦ panics
  | some access' ↦ returns (record a { access = access' })
]
