-- ===== src/Tsdb/Access/Overlap.antt =====
-- Which slices `MultipleAccess` hands out at the same time.
use hayselnut.Common.{
  ◌+◌, ◌≤◌, ◌<◌, ◌^◌, ◌≡◌, ◌⊎◌, refl, subst, List, [], ◌∷◌, ◌++◌, All, Bool, true, false,
  if◌then◌else◌, some, returns, panics, arith, returns_injective,
}
use hayselnut.Tsdb.Access.{Range, MultipleAccess, contains, is_overlapping, get, put, remove_first}

-- No address is in both.
abbrev pub Disjoint : Range → Range → Type 0
Disjoint r s = (r.end ≤ s.start) ⊎ (s.end ≤ r.start)

-- The first range begins before the second and does not end before it.
abbrev pub Encloses : Range → Range → Type 0
Encloses r s = (r.start < s.start) × (s.end ≤ r.end)

abbrev pub IsNonempty : Range → Type 0
IsNonempty r = r.start < r.end

not_overlapping :
    (r : Range) (access : List Range)
    → IsNonempty r
    → All IsNonempty access
    → is_overlapping access r ≡ false
    → All (λ s. Disjoint r s ⊎ Encloses r s) access
not_overlapping r [] n h e = _
not_overlapping r (s ∷ access) n h e =
    let rest : is_overlapping access r ≡ false = ground (arith, e) in
    let here : (contains s r.start ≡ false) × (contains s r.end ≡ false) = ground (arith, e) in
    (ground (arith, here, n, h.0), not_overlapping r access n h.1 rest)

enclosing :
    (r : Range) (access : List Range)
    → All IsNonempty access
    → All (λ s. Encloses r s) access
    → is_overlapping access r ≡ false
enclosing r [] n h = refl
enclosing r (s ∷ access) n h = ground (arith, n.0, h.0, enclosing r access n.1 h.1)

pub remove_first-append :
    (r : Range) (access : List Range)
    → IsNonempty r
    → is_overlapping access r ≡ false
    → remove_first r (access ++ (r ∷ [])) ≡ some access
remove_first-append r [] n e = ground arith
remove_first-append r (s ∷ access) n e =
    let rest : is_overlapping access r ≡ false = ground (arith, e) in
    ground (arith, e, n, remove_first-append r access n rest)

guarded :
    {A : Type 0} (test : Bool) (x y : A)
    → (if test then returns x else panics) ≡ returns y
    → (test ≡ true) × (x ≡ y)
guarded true x y h = (refl, returns_injective h)
guarded false x y h = ground (arith, h)

-- The addresses of a range.
abbrev at_ptr : MultipleAccess → Range → Range
at_ptr a range = record { start = a.ptr + range.start; end = a.ptr + range.end }

get_returned :
    (range : Range) (a : MultipleAccess) (o : MultipleAccess × Range)
    → get range a ≡ returns o
    → (range.start < range.end)
      × (range.end < a.len)
      × (is_overlapping a.access (at_ptr a range) ≡ false)
      × ((record a { access = a.access ++ (at_ptr a range ∷ []) }, at_ptr a range) ≡ o)
unfolding get
get_returned range a o h =
    let (test, same) = guarded _ _ _ h in
    (ground (arith, test), ground (arith, test), ground (arith, test), same)

-- Where no slice that is held is empty, one that `get` gives lies in the memory, is not empty, is
-- disjoint from each that is held, or encloses it, and is held behind them.
pub get_lem :
    (range : Range) (a a' : MultipleAccess) (slice : Range)
    → All IsNonempty a.access
    → get range a ≡ returns (a', slice)
    → All (λ s. Disjoint slice s ⊎ Encloses slice s) a.access
      × IsNonempty slice
      × (a.ptr ≤ slice.start)
      × (slice.end < a.ptr + a.len)
      × (a'.access ≡ a.access ++ (slice ∷ []))
unfolding get
get_lem range a a' slice n h =
    let (n', inside, free, same) = get_returned range a (a', slice) h in
    subst
      (λ (o : MultipleAccess × Range).
        All (λ s. Disjoint o.1 s ⊎ Encloses o.1 s) a.access
        × IsNonempty o.1
        × (a.ptr ≤ o.1.start)
        × (o.1.end < a.ptr + a.len)
        × (o.0.access ≡ a.access ++ (o.1 ∷ [])))
      same
      (
        not_overlapping (at_ptr a range) a.access (omega arith) n free,
        omega arith,
        omega arith,
        omega arith,
        refl,
      )

-- A range of a memory below 2^63, whose slice encloses every slice that is held, is given by `get`,
-- so the same addresses are handed out twice.
pub get_enclosing :
    (range : Range) (a : MultipleAccess)
    → IsNonempty range
    → range.end < a.len
    → a.ptr + a.len < 2 ^ 63
    → All IsNonempty a.access
    → All
        (λ s. Encloses (record { start = a.ptr + range.start; end = a.ptr + range.end }) s)
        a.access
    → (a' : MultipleAccess) × (get range a
        ≡ returns (a', record { start = a.ptr + range.start; end = a.ptr + range.end }))
unfolding get
get_enclosing range a n b w held enc = (
  record a {
    access = a.access ++ (record { start = a.ptr + range.start; end = a.ptr + range.end } ∷ []);
  },
  ground (
    arith,
    n,
    b,
    w,
    enclosing (record { start = a.ptr + range.start; end = a.ptr + range.end }) a.access held enc,
  ),
)

put_removed :
    (slice : Range) (a : MultipleAccess) (access' : List Range)
    → remove_first slice a.access ≡ some access'
    → put slice a ≡ returns (record a { access = access' })
unfolding put
put_removed slice a access' h = ground (arith, h)

-- A slice that is put back right after `get` gave it leaves the access as it was.
pub put-get :
    (range : Range) (a a' : MultipleAccess) (slice : Range)
    → get range a ≡ returns (a', slice)
    → put slice a' ≡ returns a
put-get range a a' slice h =
    let (n', inside, free, same) = get_returned range a (a', slice) h in
    subst (λ (o : MultipleAccess × Range). put o.1 o.0 ≡ returns a) same
      (put_removed (at_ptr a range) _ a.access
        (remove_first-append (at_ptr a range) a.access (omega arith) free))
