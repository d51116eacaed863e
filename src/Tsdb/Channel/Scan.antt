-- ===== src/Tsdb/Channel/Scan.antt =====
-- `query_channel` and its loop: which of a channel's readings are found.
use hayselnut.Common.{
  ℕ, zero, suc, ◌+◌, ◌≤◌, ◌<◌, ◌^◌, ◌≡◌, ◌≢◌, ◌∙◌, ◌⊎◌, inl, inr, refl, sym, ap, List, [], ◌∷◌,
  ◌++◌, length, take, returns, arith, append_assoc, append-nil, subst, Option, some, get_elem?,
  length-append, take_all,
}
use hayselnut.Tsdb.Time.{ℤ, htime_to_unix}
use hayselnut.Tsdb.Channel.{
  DataEntry, ChannelData, Channel, ChunkMemory, select, scan, query_channel, htime_at,
}
use hayselnut.Tsdb.Channel.History.{
  Chain, Stores, Ascending, Descending, Ascending-le, Ascending-last,
}
use hayselnut.Tsdb.Channel.Selected.{
  between, joined, answer, answer-append, length-answer, select_lem, first_of_take, between-append,
  length-between, between-joined_older,
}

module _ {F : Type 0} {DateTime : Type 0} (from_timestamp : ℤ → Option DateTime) (at : ℕ → DateTime)
    (dates : (h : ℕ) → h < 2 ^ 32 → from_timestamp (htime_to_unix h) ≡ some (at h))
    (memory : ChunkMemory F) (m : memory.Memory) (t_lower t_upper max_results : ℕ) where
  abbrev found : List (DataEntry F) → List (DateTime × F)
  found es = answer at (between t_lower t_upper es)

  found-append : (xs ys : List (DataEntry F)) → found (xs ++ ys) ≡ found xs ++ found ys
  found-append xs ys = ap (answer at) (between-append t_lower t_upper xs ys) ∙ answer-append at _ _

  length-found : (es : List (DataEntry F)) → length (found es) ≤ length es
  length-found es =
      omega
        (arith, length-answer at (between t_lower t_upper es), length-between t_lower t_upper es)

  -- Where the newest time is below the range the loop stops.
  scan_below :
      (fuel : ℕ) (results : List (DateTime × F)) (num_valid t_newest t_oldest : ℕ)
      (latest : ChannelData F)
      → t_newest < t_lower
      → scan memory from_timestamp m t_lower t_upper max_results
          (suc fuel)
          results
          num_valid
          t_newest
          t_oldest
          latest
        ≡ returns (some results)
  unfolding scan
  scan_below fuel results num_valid t_newest t_oldest latest h = ground arith

  -- At the last chunk it stops too.
  scan_last :
      (fuel : ℕ) (results : List (DateTime × F)) (num_valid t_newest t_oldest : ℕ)
      (latest : ChannelData F) (more : List (DateTime × F))
      → t_lower ≤ t_newest
      → t_oldest ≤ t_upper
      → length results ≤ max_results
      → num_valid ≤ length latest.chunk
      → select memory from_timestamp t_lower t_upper (take num_valid latest.chunk) ≡ returns more
      → latest.next ≡ 0
      → scan memory from_timestamp m t_lower t_upper max_results
          (suc fuel)
          results
          num_valid
          t_newest
          t_oldest
          latest
        ≡ returns (some (results ++ more))
  unfolding scan
  scan_last fuel results num_valid t_newest t_oldest latest more h o few n s z =
      ground (arith, s, z)

  -- Else it goes on to the next chunk.
  scan_next :
      (fuel : ℕ) (results : List (DateTime × F)) (num_valid t_newest t_oldest : ℕ)
      (latest older : ChannelData F) (more : List (DateTime × F)) (y newest : DataEntry F)
      (ys : List (DataEntry F))
      → t_lower ≤ t_newest
      → t_oldest ≤ t_upper
      → length results ≤ max_results
      → num_valid ≤ length latest.chunk
      → select memory from_timestamp t_lower t_upper (take num_valid latest.chunk) ≡ returns more
      → latest.next ≢ 0
      → memory.read m latest.next ≡ returns older
      → older.chunk ≡ y ∷ ys
      → get_elem? (y ∷ ys) (length ys) ≡ some newest
      → scan memory from_timestamp m t_lower t_upper max_results
          (suc fuel)
          results
          num_valid
          t_newest
          t_oldest
          latest
        ≡ scan memory from_timestamp m t_lower t_upper max_results fuel
            (results ++ more)
            (length older.chunk)
            newest.htime
            y.htime
            older
  unfolding scan
  scan_next fuel results num_valid t_newest t_oldest latest older more y newest ys h o few n s z r c
        l =
      ground (arith, s, z, r, c, l)

  -- Below the range nothing is found.
  found_below :
      (t_newest : ℕ) (chunks : List (List (DataEntry F))) (results : List (DateTime × F))
      → Descending t_newest chunks
      → t_newest < t_lower
      → results ≡ results ++ found (joined chunks)
  found_below t_newest chunks results down below =
      sym (append-nil results)
      ∙ ap (λ xs. results ++ answer at xs)
          (sym (between-joined_older t_lower t_upper t_newest chunks down below))

  -- The loop answers the readings of these chunks that are in the range.
  abbrev Finds :
      ℕ → List (DateTime × F) → ℕ → ℕ → ℕ → ChannelData F → List (List (DataEntry F)) → Type 0
  Finds fuel results num_valid t_newest t_oldest latest chunks =
      scan memory from_timestamp m t_lower t_upper max_results fuel results num_valid t_newest
        t_oldest latest
      ≡ returns (some (results ++ found (joined chunks)))

  Finds-or_below :
      (fuel : ℕ) (results : List (DateTime × F)) (num_valid t_newest t_oldest : ℕ)
      (latest : ChannelData F) (chunks : List (List (DataEntry F)))
      → Descending t_newest chunks
      → (t_lower ≤ t_newest → Finds (suc fuel) results num_valid t_newest t_oldest latest chunks)
      → Finds (suc fuel) results num_valid t_newest t_oldest latest chunks
  Finds-or_below fuel results num_valid t_newest t_oldest latest chunks down reach =
      let old : (t_newest < t_lower) ⊎ (t_lower ≤ t_newest) = omega arith in
      elim old [
        | inl below ↦
            scan_below fuel results num_valid t_newest t_oldest latest below
            ∙ ap (λ xs. returns (some xs)) (found_below t_newest chunks results down below)
        | inr reached ↦ reach reached
      ]

  scan-Finds :
      (fuel : ℕ) (results : List (DateTime × F)) (num_valid t_newest t_oldest lo : ℕ)
      (latest : ChannelData F) (head : List (DataEntry F)) (older : List (List (DataEntry F)))
      → num_valid ≤ length latest.chunk
      → take num_valid latest.chunk ≡ head
      → Ascending lo t_newest head
      → Descending lo older
      → Chain memory m latest.next older
      → t_newest < 2 ^ 32
      → t_oldest ≤ t_upper
      → lo ≤ t_upper
      → length results + length (joined (head ∷ older)) ≤ max_results
      → length older ≤ fuel
      → Finds (suc fuel) results num_valid t_newest t_oldest latest (head ∷ older)
  scan-Finds fuel results num_valid t_newest t_oldest lo latest head [] n e up down chain u o l few
        enough =
      Finds-or_below fuel results num_valid t_newest t_oldest latest (head ∷ []) (lo, up, down)
        (λ r.
          scan_last fuel results num_valid t_newest t_oldest latest (found head) r o
            (omega (arith, few)) n
            (rw e (select_lem from_timestamp at dates memory t_lower t_upper lo t_newest head up u))
            chain
          ∙ ap (λ xs. returns (some (results ++ found xs))) (sym (append-nil head)))
  scan-Finds fuel results num_valid t_newest t_oldest lo latest head ([] ∷ older) n e up down chain
        u o l few enough =
      absurd (omega (arith, chain.1))
  scan-Finds zero results num_valid t_newest t_oldest lo latest head ((y ∷ ys) ∷ older) n e up down
        chain u o l few enough =
      absurd (omega (arith, enough))
  scan-Finds (suc fuel) results num_valid t_newest t_oldest lo latest head ((y ∷ ys) ∷ older) n e up
        (below, rise, down) (ne, sized, (next, read, chain)) u o l few enough =
      let (newest, at_end, tight, le) = Ascending-last below lo y ys rise in
      let lower = Ascending-le y.htime newest.htime ys tight.1 in
      let top = Ascending-le lo t_newest head up in
      let sizes = length-append head (joined ((y ∷ ys) ∷ older)) in
      let shorter = length-append results (found head) in
      Finds-or_below (suc fuel) results num_valid t_newest t_oldest latest (head ∷ (y ∷ ys) ∷ older)
        (lo, up, (below, rise, down))
        (λ r.
          scan_next (suc fuel) results num_valid t_newest t_oldest latest
            (record { chunk = y ∷ ys; next = next }) (found head) y newest ys r o
            (omega (arith, few)) n
            (rw e (select_lem from_timestamp at dates memory t_lower t_upper lo t_newest head up u))
            ne read refl at_end
          ∙ scan-Finds fuel (results ++ found head) (length (y ∷ ys)) newest.htime y.htime below
              (record { chunk = y ∷ ys; next = next }) (y ∷ ys) older (omega arith)
              (take_all (length (y ∷ ys)) (y ∷ ys) (omega arith)) tight down chain
              (omega (arith, le, u, top)) (omega (arith, le, lower, l))
              (omega (arith, le, lower, tight.0, l))
              (omega (arith, few, sizes, shorter, length-found head)) (omega (arith, enough))
          ∙ ap (λ xs. returns (some xs))
              (append_assoc results (found head) _
                ∙ ap (λ xs. results ++ xs) (sym (found-append head (joined ((y ∷ ys) ∷ older))))))

  first_htime :
      (c : Channel F) (e : DataEntry F) (es : List (DataEntry F))
      → take c.num_used c.latest.chunk ≡ e ∷ es
      → htime_at memory from_timestamp c.latest.chunk 0 ≡ returns e.htime
  first_htime c e es h = rw (htime_at, first_of_take c.num_used c.latest.chunk e es h) refl

  -- In a channel with a reading in its own chunk, whose first one there is not newer than the upper bound,
  -- and which holds no more readings than asked for, `query_channel` returns, on fuel for each chunk, the
  -- readings strictly between the bounds: those of the newest chunk first, each chunk's oldest first.
  -- Each time of the database is a date.
  pub query_channel_lem :
      (fuel : ℕ) (c : Channel F) (readings : List (DataEntry F)) (s : Stores memory m c readings)
      (e : DataEntry F) (es : List (DataEntry F))
      → s.head ≡ e ∷ es
      → c.last_time < 2 ^ 32
      → e.htime ≤ t_upper
      → length (joined (s.head ∷ s.older)) ≤ max_results
      → length s.older ≤ fuel
      → query_channel memory from_timestamp m t_lower t_upper max_results (suc fuel) c
        ≡ returns (some (answer at (between t_lower t_upper (joined (s.head ∷ s.older)))))
  unfolding query_channel
  query_channel_lem fuel c readings s e es h u o few enough =
      let (lo, up, down) = s.ordered in
      let rises : Ascending lo c.last_time (e ∷ es) = subst (Ascending lo c.last_time) h up in
      rw (first_htime c e es (s.holds.newest ∙ h)) (
        scan-Finds fuel [] c.num_used c.last_time e.htime lo c.latest s.head s.older
          (omega (arith, s.holds.used, s.holds.sized)) s.holds.newest up down s.holds.chain u o
          (omega (arith, rises.0, o)) (omega (arith, few)) enough)

  -- Where the first entry of the channel's own chunk, which holds one, is newer than the upper bound,
  -- `query_channel` finds nothing, whatever the older chunks hold.
  pub query_channel_newer :
      (fuel : ℕ) (c : Channel F) (readings : List (DataEntry F)) (s : Stores memory m c readings)
      (e : DataEntry F) (es : List (DataEntry F))
      → s.head ≡ e ∷ es
      → t_upper < e.htime
      → query_channel memory from_timestamp m t_lower t_upper max_results (suc fuel) c
        ≡ returns (some [])
  unfolding query_channel scan
  query_channel_newer fuel c readings s e es h o =
      rw (first_htime c e es (s.holds.newest ∙ h)) (ground arith)
