-- ===== src/Tsdb/Alloc.antt =====
-- The allocator (`AllocAccess` of haysel/src/tsdb3/alloc.rs, and `access_memmap` of alloc/access.rs). Of
-- the memory the model keeps the headers: its own, the free lists, and `chunk_at`, the chunk header that
-- the bytes from an address on hold.
pub mod Bump
pub mod Fresh
pub mod Reuse
mod Tests
use hayselnut.Common.{
  ◌++◌, ℕ, ◌+◌, ◌-◌, ◌*◌, ◌%◌, ◌^◌, List, [], ◌∷◌, Bool, true, false, ◌&&◌, ◌||◌, ◌==◌, leb, ltb,
  if◌then◌else◌, length, Option, none, some, Outcome, returns, panics, ◌>>=◌, bit_and,
}
use hayselnut.Tsdb.Layouts.{
  AllocCategoryHeader, AllocHeader, ChunkHeader, Layout, TypeRegistry, align_of_chunk_header,
  alignment_pad_size, contains_similar, free, is_null, localize_to, magic, max_align, new_header,
  null, num_types, offset_down, offset_up, register, round_up_to, same_bytes, same_layout,
  size_of_chunk_header, to_range_usize, verify,
}
use hayselnut.Tsdb.Access.{Range, MultipleAccess, get, put}
use hayselnut.Tsdb.Access

pub record AllocAccess : Type 0 where
  pub alloc_t_reg : TypeRegistry
  pub base : ℕ
  pub header : AllocHeader
  pub free_lists : List AllocCategoryHeader
  pub dat : MultipleAccess
  pub chunk_at : ℕ → ChunkHeader

abbrev pub is_aligned : ℕ → ℕ → Bool
is_aligned addr align = addr % align == 0

-- `AllocAccess::new` on `len` bytes from `base` on, which hold the header `stored`, behind it `lists n`, if
-- read as `n` free lists, and the chunks `chunk_at`.
unfoldable pub new :
    ℕ
    → ℕ
    → TypeRegistry
    → Bool
    → AllocHeader
    → (ℕ → List AllocCategoryHeader)
    → (ℕ → ChunkHeader)
    → Outcome AllocAccess
new base len types write_header stored lists chunk_at =
    let header = if write_header then new_header null (num_types types) else stored in
    let before = 40 + 24 * header.free_list_size in
    if is_aligned base (max_align types)
      && is_aligned base 8
      && leb 40 len
      && verify header
      && leb before len
    then returns (record {
      alloc_t_reg = types;
      base = base;
      header = header;
      free_lists = lists header.free_list_size;
      dat = Access.new (base + before) (len - before);
      chunk_at = chunk_at;
    })
    else panics

-- The slice of a local pointer, aligned for what is read there, as `Ref` demands.
abbrev pub get_aligned : ℕ → ℕ → ℕ → AllocAccess → Outcome (Range × AllocAccess)
get_aligned size align global a = do
  local ← localize_to a.base a.dat.ptr global
  got ← get (to_range_usize size local) a.dat
  (if is_aligned got.1.start align then returns (got.1, record a { dat = got.0 }) else panics)

abbrev pub put_back : Range → AllocAccess → Outcome AllocAccess
put_back slice a = put slice a.dat >>= λ dat. returns (record a { dat = dat })

abbrev pub is_list_of : ℕ → ℕ → AllocCategoryHeader → Bool
is_list_of size align list = (size == list.size) && (align == list.align)

-- The head of the first list of this size and alignment, and the lists with another head there.
abbrev pub find_head : ℕ → ℕ → List AllocCategoryHeader → Option ℕ
find_head size align [] = none
find_head size align (list ∷ lists) =
    if is_list_of size align list then some list.head else find_head size align lists

abbrev pub set_head : ℕ → ℕ → ℕ → List AllocCategoryHeader → List AllocCategoryHeader
set_head size align head [] = []
set_head size align head (list ∷ lists) =
    let rest = set_head size align head lists in
    if is_list_of size align list then record list { head = head } ∷ lists else list ∷ rest

unfoldable pub get_free_for : Layout → AllocAccess → Outcome (Option ℕ × AllocAccess)
get_free_for t a = do
  pad ← alignment_pad_size t
  elim (find_head (t.size + pad) t.align a.free_lists) [
    | none ↦ returns (none, a)
    | some found ↦ if is_null found then returns (none, a) else (do
      first ← get_aligned size_of_chunk_header align_of_chunk_header found a
      let head = (a.chunk_at found).next
      back ← put_back first.0 first.1
      returns (
        some found,
        record back { free_lists = set_head (t.size + pad) t.align head a.free_lists },
      ))
  ]

-- What is left of the slice of a chunk behind its header and the padding.
abbrev pub value_slice : ℕ → Range → Range
value_slice pad slice = record {
  start = slice.start + (size_of_chunk_header + pad);
  end = slice.end;
}

-- The slice begins with a header whose flags are known, and what is left of it is a value's.
abbrev pub has_value : Layout → ℕ → Range → ChunkHeader → Bool
has_value t pad slice chunk =
    let value = value_slice pad slice in
    ((chunk.flags == 0) || (chunk.flags == free))
    && leb value.start value.end
    && (value.end - value.start == t.size)
    && is_aligned value.start t.align

abbrev pub used_again : ℕ → AllocAccess → AllocAccess
used_again spot a = record a {
  chunk_at =
      λ addr. if addr == spot then record (a.chunk_at spot) { flags = 0 } else a.chunk_at addr;
}

abbrev pub alloc_free : Layout → ℕ → AllocAccess → Outcome (ℕ × Range × AllocAccess)
alloc_free t free_spot a = do
  pad ← alignment_pad_size t
  got ← get_aligned size_of_chunk_header align_of_chunk_header free_spot a
  ptr ←
      if has_value t pad got.0 (a.chunk_at free_spot)
      then offset_up (size_of_chunk_header + pad) free_spot
      else panics
  returns (ptr, value_slice pad got.0, used_again free_spot got.1)

abbrev pub alloc_new : Layout → AllocAccess → Outcome (ℕ × Range × AllocAccess)
alloc_new t a = do
  pad ← alignment_pad_size t
  let global = a.header.used
  used ← offset_up (size_of_chunk_header + pad + t.size) global
  first ←
      get_aligned size_of_chunk_header align_of_chunk_header global
        (record a { header = record a.header { used = used } })
  back ← put_back first.0 first.1
  ptr ← offset_up (size_of_chunk_header + pad) global
  let chunk : ChunkHeader = record { flags = 0; len = (pad + t.size) % 2 ^ 32; next = 1 }
  got ←
      get_aligned t.size t.align ptr
        (record back { chunk_at = λ addr. if addr == global then chunk else a.chunk_at addr })
  returns (ptr, got.0, got.1)

-- The pointer and the slice of the new value, which is all zeros.
abbrev pub alloc_at : Layout → Option ℕ → AllocAccess → Outcome (ℕ × Range × AllocAccess)
alloc_at t none a = alloc_new t a
alloc_at t (some free_spot) a = alloc_free t free_spot a

unfoldable pub alloc : Layout → AllocAccess → Outcome (ℕ × Range × AllocAccess)
alloc t a =
    if contains_similar t a.alloc_t_reg
    then (get_free_for t a >>= λ free_for. alloc_at t free_for.0 free_for.1)
    else panics

abbrev pub get_size_used : AllocAccess → ℕ
get_size_used a = a.header.used

-- A store through `entrypoint_pointer`.
abbrev pub set_entrypoint_pointer : ℕ → AllocAccess → AllocAccess
set_entrypoint_pointer ptr a = record a { header = record a.header { entrypoint = ptr } }

-- The slice of a value that is there.
unfoldable pub read : Layout → ℕ → AllocAccess → Outcome (Range × AllocAccess)
read t ptr a = if contains_similar t a.alloc_t_reg then get_aligned t.size t.align ptr a else panics

unfoldable pub entrypoint : Layout → AllocAccess → Outcome (Option Range × AllocAccess)
entrypoint t a =
    if is_null a.header.entrypoint
    then returns (none, a)
    else (read t a.header.entrypoint a >>= λ got. returns (some got.0, got.1))
