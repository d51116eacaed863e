-- ===== src/Tsdb/Alloc/Bump.antt =====
-- What `alloc` does where it finds no free chunk, and where it finds one (haysel/src/tsdb3/alloc.rs).
use hayselnut.Common.{
  ℕ, ◌+◌, ◌-◌, ◌%◌, ◌^◌, ◌≤◌, ◌<◌, ◌≡◌, refl, List, [], ◌∷◌, ◌++◌, All, true, false, ◌==◌, leb, ltb,
  if◌then◌else◌, returns, ◌>>=◌, arith,
}
use hayselnut.Tsdb.Access.{Range, get, put, is_overlapping}
use hayselnut.Tsdb.Access.Overlap.{IsNonempty, remove_first-append}
use hayselnut.Tsdb.Alloc.{alloc_new, AllocAccess, get_aligned, is_aligned, put_back}
use hayselnut.Tsdb.Layouts.{Layout, alignment_pad_size, to_range_usize, ChunkHeader}

-- Nothing that is held lies at an address from `limit` on.
abbrev pub IsBelow : ℕ → List Range → Type 0
IsBelow limit access = All (λ r. r.end ≤ limit) access

free_above :
    (limit : ℕ) (r : Range) (access : List Range)
    → limit ≤ r.start
    → r.start ≤ r.end
    → IsBelow limit access
    → is_overlapping access r ≡ false
free_above limit r [] above sized below = refl
free_above limit r (s ∷ access) above sized below =
    ground (arith, below.0, free_above limit r access above sized below.1)

-- Where the allocator's memory has room for the range, and holds nothing from there on.
pub record HasRoom (a : AllocAccess) (global size align : ℕ) : Type 0 where
  pub based : a.base ≤ a.dat.ptr
  pub inside : a.dat.ptr - a.base ≤ global
  pub within : global + size < a.dat.ptr - a.base + a.dat.len
  pub small : a.dat.len < 2 ^ 63 - 1
  pub addressed : a.dat.ptr + a.dat.len < 2 ^ 64
  pub aligned : (a.base + global) % align ≡ 0
  pub fresh : IsBelow (a.base + global) a.dat.access

-- The slice at a pointer.
abbrev pub slice_at : AllocAccess → ℕ → ℕ → Range
slice_at a global size = record { start = a.base + global; end = a.base + global + size }

abbrev pub holding : AllocAccess → Range → AllocAccess
holding a slice = record a { dat = record a.dat { access = a.dat.access ++ (slice ∷ []) } }

get_aligned_lem :
    (a : AllocAccess) (global size align : ℕ)
    → 1 ≤ size
    → HasRoom a global size align
    → get_aligned size align global a
      ≡ returns (slice_at a global size, holding a (slice_at a global size))
get_aligned_lem a global size align some_size room =
    let off = a.dat.ptr - a.base in
    let down : leb a.base a.dat.ptr ≡ true = ground (arith, room.based) in
    let inside : leb (a.dat.ptr - a.base) global ≡ true = ground (arith, room.inside) in
    let start : a.dat.ptr + (global - (a.dat.ptr - a.base)) ≡ a.base + global =
      omega (arith, room.based, room.inside) in
    let end : a.dat.ptr + (global - (a.dat.ptr - a.base) + size) ≡ a.base + global + size =
      omega (arith, room.based, room.inside) in
    let clear : is_overlapping a.dat.access (slice_at a global size) ≡ false =
      free_above (a.base + global) (slice_at a global size) a.dat.access (omega arith) (omega arith)
        room.fresh in
    let got : get (to_range_usize size (global - (a.dat.ptr - a.base))) a.dat
        ≡ returns (
          record a.dat { access = a.dat.access ++ (slice_at a global size ∷ []) },
          slice_at a global size,
        ) =
      unfold get in
      rw (start, end, clear)
        (ground (arith, room.within, room.small, room.addressed, room.based, room.inside)) in
    let even : is_aligned (a.base + global) align ≡ true = rw room.aligned refl in
    rw (down, inside, ◌>>=◌) (rw (got, ◌>>=◌) (rw even refl))

pub weaker : (l m : ℕ) (access : List Range) → l ≤ m → IsBelow l access → IsBelow m access
weaker l m [] le below = _
weaker l m (r ∷ access) le below = (omega (arith, below.0), weaker l m access le below.1)

pub below-append :
    (l : ℕ) (access : List Range) (r : Range)
    → IsBelow l access
    → r.end ≤ l
    → IsBelow l (access ++ (r ∷ []))
below-append l [] r below end = (end, _)
below-append l (s ∷ access) r below end = (below.0, below-append l access r below.1 end)

-- There is room for a chunk for `t` behind what is used, the places of its header and of its value are aligned, and nothing that is held lies there.
pub record CanAlloc (a : AllocAccess) (t : Layout) (pad : ℕ) : Type 0 where
  pub based : a.base ≤ a.dat.ptr
  pub inside : a.dat.ptr - a.base ≤ a.header.used
  pub within : a.header.used + 16 + pad + t.size < a.dat.ptr - a.base + a.dat.len
  pub small : a.dat.len < 2 ^ 63 - 1
  pub addressed : a.dat.ptr + a.dat.len < 2 ^ 64
  pub header_aligned : (a.base + a.header.used) % 8 ≡ 0
  pub value_aligned : (a.base + (a.header.used + (16 + pad))) % t.align ≡ 0
  pub fresh : IsBelow (a.base + a.header.used) a.dat.access

header_room :
    (a : AllocAccess) (t : Layout) (pad : ℕ)
    → 1 ≤ t.size
    → CanAlloc a t pad
    → HasRoom a a.header.used 16 8
header_room a t pad some_size can = record {
  based = can.based;
  inside = can.inside;
  within = omega (arith, can.within);
  small = can.small;
  addressed = can.addressed;
  aligned = can.header_aligned;
  fresh = can.fresh;
}

value_room :
    (a : AllocAccess) (t : Layout) (pad : ℕ)
    → CanAlloc a t pad
    → HasRoom a (a.header.used + (16 + pad)) t.size t.align
value_room a t pad can = record {
  based = can.based;
  inside = omega (arith, can.inside);
  within = omega (arith, can.within);
  small = can.small;
  addressed = can.addressed;
  aligned = can.value_aligned;
  fresh =
      weaker (a.base + a.header.used) (a.base + (a.header.used + (16 + pad))) a.dat.access
        (omega arith) can.fresh;
}

put_back_lem :
    (a : AllocAccess) (slice : Range)
    → IsNonempty slice
    → is_overlapping a.dat.access slice ≡ false
    → put_back slice (holding a slice) ≡ returns a
put_back_lem a slice some_bytes clear =
    let back : put slice (record a.dat { access = a.dat.access ++ (slice ∷ []) }) ≡ returns a.dat =
      unfold put in rw (remove_first-append slice a.dat.access some_bytes clear, put) refl in
    rw (back, ◌>>=◌) refl

-- The state behind an allocation.
abbrev pub allocated : Layout → ℕ → AllocAccess → AllocAccess
allocated t pad a =
    let chunk : ChunkHeader = record { flags = 0; len = (pad + t.size) % 2 ^ 32; next = 1 } in
    holding
      (record a {
        header = record a.header { used = a.header.used + (16 + pad + t.size) };
        chunk_at = λ addr. if addr == a.header.used then chunk else a.chunk_at addr;
      })
      (slice_at a (a.header.used + (16 + pad)) t.size)

pub alloc_new_lem :
    (t : Layout) (pad : ℕ) (a : AllocAccess)
    → 1 ≤ t.size
    → alignment_pad_size t ≡ returns pad
    → CanAlloc a t pad
    → a.header.used + (16 + pad + t.size) < 2 ^ 64
    → alloc_new t a
      ≡ returns (
        a.header.used + (16 + pad),
        slice_at a (a.header.used + (16 + pad)) t.size,
        allocated t pad a,
      )
alloc_new_lem t pad a some_size padded can fits =
    let raised = record a {
      header = record a.header { used = a.header.used + (16 + pad + t.size) };
    } in
    let chunk : ChunkHeader = record { flags = 0; len = (pad + t.size) % 2 ^ 32; next = 1 } in
    let written = record raised {
      chunk_at = λ addr. if addr == a.header.used then chunk else a.chunk_at addr;
    } in
    let small : ltb (a.header.used + (16 + pad + t.size)) (2 ^ 64) ≡ true = ground arith in
    let smaller : ltb (a.header.used + (16 + pad)) (2 ^ 64) ≡ true = ground arith in
    let slice = slice_at a a.header.used 16 in
    let clear : is_overlapping a.dat.access slice ≡ false =
      free_above (a.base + a.header.used) slice a.dat.access (omega arith) (omega arith)
        can.fresh in
    let room = header_room a t pad some_size can in
    let first = get_aligned_lem raised a.header.used 16 8 (omega arith) (record {
      based = room.based;
      inside = room.inside;
      within = room.within;
      small = room.small;
      addressed = room.addressed;
      aligned = room.aligned;
      fresh = room.fresh;
    }) in
    let back = put_back_lem raised slice (omega arith) clear in
    let more = value_room a t pad can in
    let value =
      get_aligned_lem written (a.header.used + (16 + pad)) t.size t.align some_size (record {
        based = more.based;
        inside = more.inside;
        within = more.within;
        small = more.small;
        addressed = more.addressed;
        aligned = more.aligned;
        fresh = more.fresh;
      }) in
    rw (padded, ◌>>=◌)
      (rw (small, ◌>>=◌)
        (rw (first, ◌>>=◌) (rw (back, ◌>>=◌) (rw (smaller, ◌>>=◌) (rw (value, ◌>>=◌) refl)))))
