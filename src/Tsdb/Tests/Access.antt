-- ===== src/Tsdb/Tests/Access.antt =====
-- The theorems about `MultipleAccess`, at a memory of 1024 bytes.
use hayselnut.Common.{◌+◌, ◌≤◌, ◌<◌, ◌≡◌, ◌⊎◌, refl, [], ◌∷◌, ◌++◌, All, arith}
use hayselnut.Tsdb.Access.{Range, MultipleAccess, new, get}
use hayselnut.Tsdb.Access.Overlap.{Disjoint, Encloses, IsNonempty, get_lem}

abbrev held : Range
held = record { start = 4100; end = 4104 }

abbrev one_held : MultipleAccess
one_held = record (new 4096 1024) { access = held ∷ [] }

abbrev behind : Range
behind = record { start = 8; end = 9 }

abbrev behind_held : MultipleAccess
behind_held = record one_held { access = held ∷ record { start = 4104; end = 4105 } ∷ [] }

get_lem_example :
    All
      (λ s.
        Disjoint (record { start = 4104; end = 4105 }) s
        ⊎ Encloses (record { start = 4104; end = 4105 }) s)
      (held ∷ [])
    × IsNonempty (record { start = 4104; end = 4105 })
    × (4096 ≤ 4104)
    × (4105 < 4096 + 1024)
    × (behind_held.access ≡ one_held.access ++ (record { start = 4104; end = 4105 } ∷ []))
unfolding get
get_lem_example =
    get_lem behind one_held behind_held (record { start = 4104; end = 4105 }) (omega arith, _) refl
