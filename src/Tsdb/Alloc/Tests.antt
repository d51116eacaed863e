-- ===== src/Tsdb/Alloc/Tests.antt =====
-- The theorems about the allocator on a memory of 4096 bytes with a type of 13 bytes, as in the tests of
-- haysel/src/tsdb3/alloc.rs.
use hayselnut.Common.{
  ℕ, ◌+◌, ◌≤◌, ◌<◌, ◌≡◌, refl, List, [], ◌∷◌, true, some, returns, panics, arith,
}
use hayselnut.Tsdb.Access.{Range, get, put}
use hayselnut.Tsdb.Access
use hayselnut.Tsdb.Alloc.{AllocAccess, get_free_for, alloc, new}
use hayselnut.Tsdb.Layouts.{
  Layout, AllocCategoryHeader, ChunkHeader, new_header, alignment_pad_size, round_up_to,
}
use hayselnut.Tsdb.Alloc.Bump.{IsBelow}
use hayselnut.Tsdb.Alloc.Fresh.{NoFree, alloc-IsBelow}
use hayselnut.Tsdb.Alloc.Reuse.{alloc-panics}

abbrev word : Layout
word = record { size = 8; align = 8 }

abbrev text : Layout
text = record { size = 13; align = 1 }

abbrev zeros : ChunkHeader
zeros = record { flags = 0; len = 0; next = 0 }

abbrev lists_with : ℕ → List AllocCategoryHeader
lists_with head =
    record { size = 8; align = 8; head = 0 } ∷ record { size = 16; align = 1; head = head } ∷ []

abbrev memory : ℕ → AllocAccess
memory head = record {
  alloc_t_reg = word ∷ text ∷ [];
  base = 4096;
  header = new_header 0 2;
  free_lists = lists_with head;
  dat = Access.new 4184 4008;
  chunk_at = λ addr. zeros;
}

-- It is what `new` gives.
opened :
    new 4096 4096 (word ∷ text ∷ []) true (new_header 0 0) (λ n. lists_with 0) (λ addr. zeros)
    ≡ returns (memory 0)
unfolding new
opened = refl

padding : alignment_pad_size text ≡ returns 3
unfolding alignment_pad_size round_up_to
padding = refl

alloc-IsBelow_example :
    (ptr : ℕ) × (slice : Range) × (a' : AllocAccess) × (alloc text (memory 0)
      ≡ returns (ptr, slice, a'))
    × (88 < ptr)
    × (slice.start ≡ a'.base + ptr)
    × (slice.end ≡ slice.start + 13)
    × IsBelow slice.start []
    × IsBelow (a'.base + a'.header.used) a'.dat.access
    × (ptr + 13 ≤ a'.header.used)
    × NoFree a'
alloc-IsBelow_example =
    alloc-IsBelow text 3 (memory 0) (omega arith) refl padding (refl, (refl, _))
      (record {
        based = omega arith;
        inside = omega arith;
        within = omega arith;
        small = omega arith;
        addressed = omega arith;
        header_aligned = refl;
        value_aligned = refl;
        fresh = _;
      })
      (omega arith)

-- A chunk at 200 is free.
free_chunk : get_free_for text (memory 200) ≡ returns (some 200, memory 0)
unfolding get_free_for alignment_pad_size round_up_to get put
free_chunk = refl

alloc-panics_example : alloc text (memory 200) ≡ panics
alloc-panics_example = alloc-panics text (memory 200) (memory 0) 200 (omega arith) free_chunk
