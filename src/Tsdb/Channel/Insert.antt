-- ===== src/Tsdb/Channel/Insert.antt =====
-- `insert_entry` appends one reading to a channel's history.
use hayselnut.Common.{
  append_assoc, ℕ, suc, ◌⊎◌, ◌+◌, ◌≤◌, ◌<◌, ◌≡◌, ◌∙◌, refl, sym, ap, List, [], ◌∷◌, ◌++◌, length,
  set, take, returns, arith, length-set, take-set, take_all, append_assoc, inl, inr,
}
use hayselnut.Tsdb.Channel.{DataEntry, ChannelData, Channel, ChunkMemory, chunk_len, insert_entry}
use hayselnut.Tsdb.Channel.History.{Chain, Holds, history, Stores, Ascending-append}

module _ {F : Type 0} (memory : ChunkMemory F) where
  open memory use {Memory, read, alloc_with, alloc-ne_null, read-alloc, read-alloc_old}

  -- A new chunk leaves the chain as it is.
  Chain-alloc :
      (m m' : Memory) (p : ℕ) (d : ChannelData F) (q : ℕ) (older : List (List (DataEntry F)))
      → alloc_with m d ≡ returns (p, m')
      → Chain memory m q older
      → Chain memory m' q older
  Chain-alloc m m' p d q [] a h = h
  Chain-alloc m m' p d q (chunk ∷ older) a (ne, n, (next, r, rest)) =
      (ne, n, (next, read-alloc_old m m' p q d _ a r, Chain-alloc m m' p d next older a rest))

  first-set :
      (xs : List (DataEntry F)) (entry : DataEntry F)
      → 1 ≤ length xs
      → take 1 (set xs 0 entry) ≡ entry ∷ []
  unfolding take set
  first-set [] entry h = absurd (omega arith)
  first-set (x ∷ xs) entry h = refl

  -- While the channel's own chunk has room, the reading is written behind its last one, and the
  -- memory is not touched.
  pub insert_entry-room :
      (t : ℕ) (x : F) (c : Channel F) (m : Memory) (head : List (DataEntry F))
      (older : List (List (DataEntry F)))
      → Holds memory m c head older
      → c.last_time ≤ t
      → c.num_used < chunk_len
      → (c' : Channel F) × (insert_entry memory t x c m ≡ returns (c', m))
        × Holds memory m c' (head ++ (record { htime = t; reading = x } ∷ [])) older
        × (c'.last_time ≡ t)
  unfolding insert_entry
  insert_entry-room t x c m head older v h r =
      let entry : DataEntry F = record { htime = t; reading = x } in
      let chunk = set c.latest.chunk c.num_used entry in
      (
        record {
          num_used = c.num_used + 1;
          last_time = t;
          latest = record { chunk = chunk; next = c.latest.next };
        },
        ground (arith, v.sized),
        record {
          sized = length-set c.latest.chunk c.num_used entry ∙ v.sized;
          used = omega arith;
          newest =
              (let e : c.num_used + 1 ≡ suc c.num_used = omega arith in
                rw e (take-set c.latest.chunk c.num_used entry (omega (arith, v.sized))))
              ∙ ap (λ xs. xs ++ (entry ∷ [])) v.newest;
          chain = v.chain;
        },
        refl,
      )

  -- A full chunk is moved out to a new one, and the reading starts the channel's own chunk again.
  pub insert_entry-full :
      (t : ℕ) (x : F) (c : Channel F) (m m' : Memory) (p : ℕ) (head : List (DataEntry F))
      (older : List (List (DataEntry F)))
      → Holds memory m c head older
      → c.last_time ≤ t
      → c.num_used ≡ chunk_len
      → alloc_with m c.latest ≡ returns (p, m')
      → (c' : Channel F) × (insert_entry memory t x c m ≡ returns (c', m'))
        × Holds memory m' c' (record { htime = t; reading = x } ∷ []) (head ∷ older)
        × (c'.last_time ≡ t)
  unfolding insert_entry
  insert_entry-full t x c m m' p head older v h full a =
      let entry : DataEntry F = record { htime = t; reading = x } in
      let chunk = set c.latest.chunk 0 entry in
      let whole : c.latest.chunk ≡ head =
        sym (take_all c.num_used c.latest.chunk (omega (arith, v.sized))) ∙ v.newest in
      (
        record { num_used = 1; last_time = t; latest = record { chunk = chunk; next = p } },
        ground (arith, v.sized, a),
        record {
          sized = length-set c.latest.chunk 0 entry ∙ v.sized;
          used = omega arith;
          newest = first-set c.latest.chunk entry (omega (arith, v.sized));
          chain = (
            alloc-ne_null m m' p c.latest a,
            sym (ap length whole) ∙ v.sized,
            (
              c.latest.next,
              rw (← whole) (read-alloc m m' p c.latest a),
              Chain-alloc m m' p c.latest c.latest.next older a v.chain,
            ),
          );
        },
        refl,
      )

  history-append :
      (xs ys : List (DataEntry F)) (older : List (List (DataEntry F)))
      → history (xs ++ ys) older ≡ history xs older ++ ys
  history-append xs ys [] = refl
  history-append xs ys (chunk ∷ older) = sym (append_assoc (history chunk older) xs ys)

  -- While the store can allocate, a reading that is not older than the channel's last one is inserted,
  -- and the channel then stands for its old readings and this one behind them.
  pub insert_entry-Stores :
      (t : ℕ) (x : F) (c : Channel F) (m : Memory) (readings : List (DataEntry F))
      → Stores memory m c readings
      → c.last_time ≤ t
      → ((d : ChannelData F) → (p : ℕ) × (m' : Memory) × (alloc_with m d ≡ returns (p, m')))
      → (c' : Channel F) × (m' : Memory) × (insert_entry memory t x c m ≡ returns (c', m'))
        × Stores memory m' c' (readings ++ (record { htime = t; reading = x } ∷ []))
  insert_entry-Stores t x c m readings s h room =
      let entry : DataEntry F = record { htime = t; reading = x } in
      let (lo, up, down) = s.ordered in
      let cases : (chunk_len ≤ c.num_used) ⊎ (c.num_used < chunk_len) = omega arith in
      elim cases [
        | inl le ↦
            let (p, m', a) = room c.latest in
            let (c', e, v, last) =
              insert_entry-full t x c m m' p s.head s.older s.holds h (omega (arith, s.holds.used))
                a in
            (
              c',
              m',
              e,
              record {
                head = entry ∷ [];
                older = s.head ∷ s.older;
                holds = v;
                ordered = (c.last_time, rw last (h, omega arith), (lo, up, down));
                whole = ap (λ xs. xs ++ (entry ∷ [])) s.whole;
              },
            )
        | inr lt ↦
            let (c', e, v, last) = insert_entry-room t x c m s.head s.older s.holds h lt in
            (
              c',
              m,
              e,
              record {
                head = s.head ++ (entry ∷ []);
                older = s.older;
                holds = v;
                ordered = (
                  lo,
                  rw last (Ascending-append lo c.last_time t s.head _ up (h, omega arith)),
                  down,
                );
                whole = history-append s.head _ s.older ∙ ap (λ xs. xs ++ (entry ∷ [])) s.whole;
              },
            )
      ]
