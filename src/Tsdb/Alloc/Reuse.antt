-- ===== src/Tsdb/Alloc/Reuse.antt =====
-- What `alloc` does where it finds a free chunk (haysel/src/tsdb3/alloc.rs).
use hayselnut.Common.{
  ℕ, ◌+◌, ◌-◌, ◌≤◌, ◌≡◌, refl, Bool, true, false, ◌&&◌, ◌||◌, ◌==◌, leb, if◌then◌else◌, some,
  Outcome, returns, panics, ◌>>=◌, arith,
}
use hayselnut.Tsdb.Access.{Range, MultipleAccess, get}
use hayselnut.Tsdb.Alloc.{
  AllocAccess, get_free_for, alloc, alloc_at, alloc_free, get_aligned, is_aligned, has_value,
}
use hayselnut.Tsdb.Layouts.{
  Layout, alignment_pad_size, contains_similar, ChunkHeader, free, localize_to, to_range_usize,
}

bind-panics :
    {A B : Type 0} (o : Outcome A) (f : A → Outcome B)
    → ((a : A) → f a ≡ panics)
    → (o >>= f) ≡ panics
bind-panics (returns a) f h = h a
bind-panics panics f h = refl

guarded :
    {A : Type 0} (test : Bool) (o : Outcome A) → o ≡ panics → (if test then o else panics) ≡ panics
guarded true o h = h
guarded false o h = refl

last : (p q r s : Bool) → r ≡ false → (p && q && r && s) ≡ false
last true true r s h = rw h refl
last true false r s h = refl
last false q r s h = refl

-- Where the slice is that of a chunk's header, nothing is left for a value.
no_value :
    (t : Layout) (pad : ℕ) (slice : Range) (chunk : ChunkHeader)
    → 1 ≤ t.size
    → slice.end ≡ slice.start + 16
    → has_value t pad slice chunk ≡ false
no_value t pad slice chunk some_size header =
    let size : (slice.end - (slice.start + (16 + pad)) == t.size) ≡ false =
      ground (arith, header) in
    last ((chunk.flags == 0) || (chunk.flags == free)) (leb (slice.start + (16 + pad)) slice.end)
      (slice.end - (slice.start + (16 + pad)) == t.size)
      (is_aligned (slice.start + (16 + pad)) t.align) size

-- What holds of a result, if there is one.
Holds : {A : Type 0} → (A → Type 0) → Outcome A → Type 0
Holds P (returns a) = P a
Holds P panics = Unit

bind-panics_on :
    {A B : Type 0} (P : A → Type 0) (o : Outcome A) (f : A → Outcome B)
    → Holds P o
    → ((a : A) → P a → f a ≡ panics)
    → (o >>= f) ≡ panics
unfolding Holds
bind-panics_on P (returns a) f h each = each a h
bind-panics_on P panics f h each = refl

if-Holds :
    {A : Type 0} (P : A → Type 0) (test : Bool) (a : A)
    → P a
    → Holds P (if test then returns a else panics)
unfolding Holds
if-Holds P true a h = h
if-Holds P false a h = _

bind-Holds :
    {A B : Type 0} (P : A → Type 0) (Q : B → Type 0) (o : Outcome A) (f : A → Outcome B)
    → Holds P o
    → ((a : A) → P a → Holds Q (f a))
    → Holds Q (o >>= f)
unfolding Holds
bind-Holds P Q (returns a) f h each = each a h
bind-Holds P Q panics f h each = _

bind-Holds_any :
    {A B : Type 0} (Q : B → Type 0) (o : Outcome A) (f : A → Outcome B)
    → ((a : A) → Holds Q (f a))
    → Holds Q (o >>= f)
unfolding Holds
bind-Holds_any Q (returns a) f each = each a
bind-Holds_any Q panics f each = _

-- A slice that is taken has the size that was asked for.
get-sized :
    (size start : ℕ) (m : MultipleAccess)
    → Holds
        (λ (got : MultipleAccess × Range). got.1.end ≡ got.1.start + size)
        (get (record { start = start; end = start + size }) m)
unfolding get
get-sized size start m = if-Holds _ _ _ (omega arith)

get_aligned-sized :
    (size align spot : ℕ) (a : AllocAccess)
    → Holds
        (λ (got : Range × AllocAccess). got.0.end ≡ got.0.start + size)
        (get_aligned size align spot a)
get_aligned-sized size align spot a =
    bind-Holds_any _ (localize_to a.base a.dat.ptr spot) _ (λ local.
      bind-Holds _ _ (get (to_range_usize size local) a.dat) _ (get-sized size local a.dat)
        (λ got sized. if-Holds _ (is_aligned got.1.start align) _ sized))

alloc_free-panics :
    (t : Layout) (spot : ℕ) (a : AllocAccess) → 1 ≤ t.size → alloc_free t spot a ≡ panics
alloc_free-panics t spot a some_size = bind-panics (alignment_pad_size t) _ (λ pad.
    bind-panics_on (λ (got : Range × AllocAccess). got.0.end ≡ got.0.start + 16)
      (get_aligned 16 8 spot a) _ (get_aligned-sized 16 8 spot a)
      (λ got header. rw (no_value t pad got.0 (a.chunk_at spot) some_size header) refl))

-- Only the header of a free chunk is localized, so that nothing is left of the slice for the value: whatever type
-- with at least one byte the allocator finds a free chunk for, `alloc` panics.
pub alloc-panics :
    (t : Layout) (a a' : AllocAccess) (spot : ℕ)
    → 1 ≤ t.size
    → get_free_for t a ≡ returns (some spot, a')
    → alloc t a ≡ panics
unfolding alloc
alloc-panics t a a' spot some_size found =
    guarded (contains_similar t a.alloc_t_reg)
      (get_free_for t a >>= λ free_for. alloc_at t free_for.0 free_for.1)
      (rw (found, ◌>>=◌) (alloc_free-panics t spot a' some_size))
