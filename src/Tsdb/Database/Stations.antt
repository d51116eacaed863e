-- ===== src/Tsdb/Database/Stations.antt =====
-- The map of stations (`insert_station` and `get_stations` of haysel/src/tsdb3/mod.rs).
use hayselnut.Common.{◌≡◌, ◌≢◌, ◌⊎◌, List, [], ◌∷◌, All}
use hayselnut.Tsdb.Database.{MapElem}

-- The comment on `MapStations`: the valid elements are the first ones.
abbrev pub IsDense : List MapElem → Type 0
IsDense [] = Unit
IsDense (e ∷ es) = ((e.ptr ≢ 0) × IsDense es) ⊎ ((e.ptr ≡ 0) × All (λ e'. e'.ptr ≡ 0) es)
