-- ===== src/Tsdb/Layouts.antt =====
-- Layouts, pointers and the headers in the memory (haysel/src/tsdb3/alloc/registry.rs, alloc/ptr.rs and
-- alloc/repr.rs). A type is its layout, a pointer its address; arithmetic that overflows panics, as in a
-- debug build.
use hayselnut.Common.{
  ◌++◌, ℕ, ◌+◌, ◌-◌, ◌*◌, ◌%◌, ◌^◌, List, [], ◌∷◌, Bool, true, false, ◌&&◌, ◌||◌, ◌==◌, leb, ltb,
  if◌then◌else◌, length, Outcome, returns, panics, bit_and,
}
use hayselnut.Tsdb.Access.{Range}

-- `std::alloc::Layout`
pub record Layout : Type 0 where
  pub size : ℕ
  pub align : ℕ

abbrev pub same_layout : Layout → Layout → Bool
same_layout a b = (a.size == b.size) && (a.align == b.align)

-- `TypeRegistry`
abbrev pub TypeRegistry : Type 0
TypeRegistry = List Layout

abbrev pub register : Layout → TypeRegistry → TypeRegistry
register t types = types ++ (t ∷ [])

abbrev pub num_types : TypeRegistry → ℕ
num_types types = length types

abbrev pub max_align : TypeRegistry → ℕ
max_align [] = 1
max_align (t ∷ types) = let rest = max_align types in if leb rest t.align then t.align else rest

abbrev pub contains_similar : Layout → TypeRegistry → Bool
contains_similar t [] = false
contains_similar t (u ∷ types) = same_layout u t || contains_similar t types

-- On 64 bits; the debug assertion that `divisor` is a power of two holds of every alignment.
unfoldable pub round_up_to : ℕ → ℕ → ℕ
round_up_to n divisor = bit_and (n + divisor - 1) (2 ^ 64 - 1 - (divisor - 1))

abbrev pub size_of_chunk_header : ℕ
size_of_chunk_header = 16

abbrev pub align_of_chunk_header : ℕ
align_of_chunk_header = 8

unfoldable pub alignment_pad_size : Layout → Outcome ℕ
alignment_pad_size t =
    let greatest = if leb t.align align_of_chunk_header then align_of_chunk_header else t.align in
    if leb t.align align_of_chunk_header || (t.align % align_of_chunk_header == 0)
    then returns
        (round_up_to (t.size + size_of_chunk_header) greatest - t.size - size_of_chunk_header)
    else panics

-- A pointer is its address: `Ptr::is_null`, `Ptr::null`.
abbrev pub null : ℕ
null = 0

abbrev pub is_null : ℕ → Bool
is_null addr = addr == 0

-- `Ptr::offset` by a number that is not negative, and by one that is not positive.
abbrev pub offset_up : ℕ → ℕ → Outcome ℕ
offset_up by addr = if ltb (addr + by) (2 ^ 64) then returns (addr + by) else panics

abbrev pub offset_down : ℕ → ℕ → Outcome ℕ
offset_down by addr = if leb by addr then returns (addr - by) else panics

abbrev pub to_range_usize : ℕ → ℕ → Range
to_range_usize size addr = record { start = addr; end = addr + size }

-- `localize_to`: `base` and `to` are where the memory and its part begin.
abbrev pub localize_to : ℕ → ℕ → ℕ → Outcome ℕ
localize_to base to addr = if leb base to then offset_down (to - base) addr else panics

pub record ChunkHeader : Type 0 where
  pub flags : ℕ
  pub len : ℕ
  pub next : ℕ

-- `ChunkFlags::FREE`
abbrev pub free : ℕ
free = 2 ^ 31

pub record AllocCategoryHeader : Type 0 where
  pub size : ℕ
  pub align : ℕ
  pub head : ℕ

-- The bytes of "Haysel DB v3".
abbrev pub magic : List ℕ
magic = 72 ∷ 97 ∷ 121 ∷ 115 ∷ 101 ∷ 108 ∷ 32 ∷ 68 ∷ 66 ∷ 32 ∷ 118 ∷ 51 ∷ []

pub record AllocHeader : Type 0 where
  pub magic_bytes : List ℕ
  pub entrypoint : ℕ
  pub used : ℕ
  pub free_list_size : ℕ

abbrev pub new_header : ℕ → ℕ → AllocHeader
new_header entrypoint free_list_size = record {
  magic_bytes = magic;
  entrypoint = entrypoint;
  used = 40 + 24 * free_list_size;
  free_list_size = free_list_size;
}

abbrev pub same_bytes : List ℕ → List ℕ → Bool
same_bytes [] [] = true
same_bytes (x ∷ xs) (y ∷ ys) = (x == y) && same_bytes xs ys
same_bytes _ _ = false

abbrev pub verify : AllocHeader → Bool
verify h = same_bytes h.magic_bytes magic
