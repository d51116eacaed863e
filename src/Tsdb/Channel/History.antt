-- ===== src/Tsdb/Channel/History.antt =====
-- What a channel stands for: its readings, oldest first
-- (the comment on `ChannelData` in haysel/src/tsdb3/repr.rs).
use hayselnut.Common.{
  ℕ, ◌≤◌, ◌≡◌, ◌≢◌, List, [], ◌∷◌, ◌++◌, length, take, refl, returns, some, get_elem?, arith,
}
use hayselnut.Tsdb.Channel.{DataEntry, Channel, ChunkMemory, chunk_len}

module _ {F : Type 0} (memory : ChunkMemory F) where
  open memory use {Memory, read}

  -- From the address on stand these full chunks, newest first.
  abbrev pub Chain : Memory → ℕ → List (List (DataEntry F)) → Type 0
  Chain m p [] = p ≡ 0
  Chain m p (chunk ∷ older) =
      (p ≢ 0)
      × (length chunk ≡ chunk_len)
      × ((next : ℕ) × (read m p ≡ returns (record { chunk = chunk; next = next }))
          × Chain m next older)

  -- The channel holds `head` itself, and the full chunks `older` behind it.
  pub record Holds (m : Memory) (c : Channel F) (head : List (DataEntry F))
      (older : List (List (DataEntry F))) : Type 0 where
    pub sized : length c.latest.chunk ≡ chunk_len
    pub used : c.num_used ≤ chunk_len
    pub newest : take c.num_used c.latest.chunk ≡ head
    pub chain : Chain m c.latest.next older

-- All readings, oldest first.
abbrev pub history :
    {F : Type 0} → List (DataEntry F) → List (List (DataEntry F)) → List (DataEntry F)
history head [] = head
history head (chunk ∷ older) = history chunk older ++ head

-- The times go up, or stay, from the first one through the list to the second one.
abbrev pub Ascending : {F : Type 0} → ℕ → ℕ → List (DataEntry F) → Type 0
Ascending lo hi [] = lo ≤ hi
Ascending lo hi (e ∷ es) = (lo ≤ e.htime) × Ascending e.htime hi es

-- So do the chunks, newest first, down from the given time.
abbrev pub Descending : {F : Type 0} → ℕ → List (List (DataEntry F)) → Type 0
Descending hi [] = Unit
Descending hi (chunk ∷ older) = (lo : ℕ) × Ascending lo hi chunk × Descending lo older

-- The channel stands for these readings, oldest first.
pub record Stores {F : Type 0} (memory : ChunkMemory F) (m : memory.Memory) (c : Channel F)
    (readings : List (DataEntry F)) : Type 0 where
  pub head : List (DataEntry F)
  pub older : List (List (DataEntry F))
  pub holds : Holds memory m c head older
  pub ordered : Descending c.last_time (head ∷ older)
  pub whole : history head older ≡ readings

module _ {F : Type 0} where
  pub Ascending-append :
      (lo mid hi : ℕ) (xs ys : List (DataEntry F))
      → Ascending lo mid xs
      → Ascending mid hi ys
      → Ascending lo hi (xs ++ ys)
  Ascending-append lo mid hi [] [] a b = omega arith
  Ascending-append lo mid hi [] (y ∷ ys) a b = (omega (arith, b.0), b.1)
  Ascending-append lo mid hi (x ∷ xs) ys a b = (a.0, Ascending-append x.htime mid hi xs ys a.1 b)

  pub Ascending-le : (lo hi : ℕ) (xs : List (DataEntry F)) → Ascending lo hi xs → lo ≤ hi
  Ascending-le lo hi [] a = a
  Ascending-le lo hi (x ∷ xs) a = omega (arith, a.0, Ascending-le x.htime hi xs a.1)

  -- The last of the times bounds the others.
  pub Ascending-last :
      (lo hi : ℕ) (x : DataEntry F) (xs : List (DataEntry F))
      → Ascending lo hi (x ∷ xs)
      → (e : DataEntry F) × (get_elem? (x ∷ xs) (length xs) ≡ some e)
        × Ascending lo e.htime (x ∷ xs)
        × (e.htime ≤ hi)
  Ascending-last lo hi x [] a = (x, refl, (a.0, omega arith), a.1)
  Ascending-last lo hi x (y ∷ ys) a =
      let (e, at_end, up, below) = Ascending-last x.htime hi y ys a.1 in
      (e, at_end, (a.0, up), below)
