-- ===== src/Tsdb/Alloc/Fresh.antt =====
-- What `alloc` hands out while no chunk was ever freed (haysel/src/tsdb3/alloc.rs).
use hayselnut.Common.{
  ℕ, ◌+◌, ◌^◌, ◌≤◌, ◌<◌, ◌≡◌, ◌⊎◌, inl, inr, refl, ap, List, [], ◌∷◌, All, Bool, true, false,
  Option, none, some, returns, ◌>>=◌, if◌then◌else◌, arith,
}
use hayselnut.Tsdb.Access.{Range}
use hayselnut.Tsdb.Alloc.{AllocAccess, get_free_for, find_head, alloc, is_list_of}
use hayselnut.Tsdb.Layouts.{Layout, AllocCategoryHeader, alignment_pad_size, contains_similar}
use hayselnut.Tsdb.Alloc.Bump.{
  IsBelow, CanAlloc, slice_at, alloc_new_lem, allocated, weaker, below-append,
}

-- Every free list is empty, as those of zeroed memory are.
abbrev pub NoFree : AllocAccess → Type 0
NoFree a = All (λ list. list.head ≡ 0) a.free_lists

choose :
    (test : Bool) (head : ℕ) (rest : Option ℕ)
    → head ≡ 0
    → (rest ≡ none) ⊎ (rest ≡ some 0)
    → ((if test then some head else rest) ≡ none) ⊎ ((if test then some head else rest) ≡ some 0)
choose true head rest empty later = inr (ap some empty)
choose false head rest empty later = later

find_head-null :
    (size align : ℕ) (lists : List AllocCategoryHeader)
    → All (λ list. list.head ≡ 0) lists
    → (find_head size align lists ≡ none) ⊎ (find_head size align lists ≡ some 0)
find_head-null size align [] empty = inl refl
find_head-null size align (list ∷ lists) empty =
    choose (is_list_of size align list) list.head (find_head size align lists) empty.0
      (find_head-null size align lists empty.1)

get_free_for-none :
    (t : Layout) (pad : ℕ) (a : AllocAccess)
    → alignment_pad_size t ≡ returns pad
    → NoFree a
    → get_free_for t a ≡ returns (none, a)
unfolding get_free_for
get_free_for-none t pad a padded empty =
    elim (find_head-null (t.size + pad) t.align a.free_lists empty) [
      | inl e ↦ rw (padded, ◌>>=◌) (rw e refl)
      | inr e ↦ rw (padded, ◌>>=◌) (rw e refl)
    ]

-- While no chunk is free, nothing is held behind what is used, and there, with room for the chunk, the places of its
-- header and, behind the padding, of its value are aligned, of a registered type of at least one byte
-- `alloc` returns a slice behind everything that is held, of the size of the type, within what is
-- used from then on; all that is held then lies there, and still no chunk is free.
pub alloc-IsBelow :
    (t : Layout) (pad : ℕ) (a : AllocAccess)
    → 1 ≤ t.size
    → contains_similar t a.alloc_t_reg ≡ true
    → alignment_pad_size t ≡ returns pad
    → NoFree a
    → CanAlloc a t pad
    → a.header.used + (16 + pad + t.size) < 2 ^ 64
    → (ptr : ℕ) × (slice : Range) × (a' : AllocAccess) × (alloc t a ≡ returns (ptr, slice, a'))
      × (a.header.used < ptr)
      × (slice.start ≡ a'.base + ptr)
      × (slice.end ≡ slice.start + t.size)
      × IsBelow slice.start a.dat.access
      × IsBelow (a'.base + a'.header.used) a'.dat.access
      × (ptr + t.size ≤ a'.header.used)
      × NoFree a'
unfolding alloc
alloc-IsBelow t pad a some_size registered padded empty can fits =
    let ptr = a.header.used + (16 + pad) in
    let slice = slice_at a ptr t.size in
    (
      ptr,
      slice,
      allocated t pad a,
      rw (registered, get_free_for-none t pad a padded empty, ◌>>=◌)
          (alloc_new_lem t pad a some_size padded can fits),
      omega arith,
      refl,
      refl,
      weaker (a.base + a.header.used) slice.start a.dat.access (omega arith) can.fresh,
      below-append (a.base + (a.header.used + (16 + pad + t.size))) a.dat.access slice
          (weaker (a.base + a.header.used) (a.base + (a.header.used + (16 + pad + t.size)))
            a.dat.access (omega arith) can.fresh)
          (omega arith),
      omega arith,
      empty,
    )
