-- ===== src/Registry.antt =====
-- The known stations and channels (haysel/squirrel/src/api/station) and what the registry does when a station
-- connects (haysel/src/registry.rs). `Uuid::new_v4` is a parameter, the draws one behind the other; the announcements
-- go out on the bus, in their order.
pub mod Maps
pub mod Data
pub mod Known
pub mod Connect
pub mod Repeated
mod Tests
use hayselnut.Common.{
  ℕ, zero, suc, ◌+◌, ◌≡◌, refl, Bool, true, false, not, ◌&&◌, List, [], ◌∷◌, ◌++◌, ◌==◌, ==_iff,
  if◌then◌else◌, map, Option, Bool-cases, eq_of_==, inl, inr, ap, ap₂, arith, ◌↔◌, subst, none,
  some, Outcome, returns, panics, ◌>>=◌,
}
use hayselnut.Registry.Maps.{HasSame, HashMap, get, contains_key, insert}
use hayselnut.Registry.Data.{
  Uuid, ChannelName, ChannelValue, ChannelType, Channel, StationInfo, uuid-HasSame,
  channel_name-HasSame, Result, ok, err, id_by_name, get_channel, Channels, insert_channel,
  get_info, map_info, insert_station,
}

-- The build is text that is only logged.
pub record OnConnect : Type 0 where
  pub station_id : Uuid
  pub channels : List Channel

pub record Registry : Type 0 where
  pub stations : HashMap Uuid StationInfo
  pub known : Channels

pub data Announcement : Type 0 where
  meta_new_station : Uuid → Announcement
  meta_new_channel : Uuid → Channel → Announcement
  meta_station_assoc_channel : Uuid → Uuid → Channel → Announcement

abbrev pub unwrap : {A : Type 0} → Option A → Outcome A
unwrap none = panics
unwrap (some a) = returns a

abbrev pub unwrap_result : {A E : Type 0} → Result A E → Outcome A
unwrap_result (ok a) = returns a
unwrap_result (err e) = panics

-- A name's id, and whether the channel is new.
abbrev pub resolve : (ℕ → Uuid) → Channel → Channels → Outcome ((Uuid × Bool) × Channels)
resolve draws ch known = elim (id_by_name known.channels ch.name) [
  | some id ↦ returns ((id, false), known)
  | none ↦
      let (inserted, known') = insert_channel draws ch known in
      unwrap_result inserted >>= λ id. returns ((id, true), known')
]

-- Collected one by one: a name that comes again takes the place of the one before.
abbrev pub resolve_all :
    (ℕ → Uuid)
    → List Channel
    → HashMap ChannelName (Uuid × Bool)
    → Channels
    → Outcome (HashMap ChannelName (Uuid × Bool) × Channels)
resolve_all draws [] mappings known = returns (mappings, known)
resolve_all draws (ch ∷ chs) mappings known = resolve draws ch known >>= λ (v, known').
    resolve_all draws chs (insert mappings ch.name v) known'

abbrev pub is_new : ChannelName × (Uuid × Bool) → Bool
is_new (name, (id, new)) = new

abbrev pub filter : {A : Type 0} → (A → Bool) → List A → List A
filter test [] = []
filter test (x ∷ xs) = let rest = filter test xs in if test x then x ∷ rest else rest

-- One announcement for each id, of the channel that is known by it.
abbrev pub announce_all :
    HashMap Uuid Channel → (Uuid → Channel → Announcement) → List Uuid → Outcome (List Announcement)
announce_all channels kind [] = returns []
announce_all channels kind (id ∷ ids) = unwrap (get_channel channels id) >>= λ ch.
    announce_all channels kind ids >>= λ rest. returns (kind id ch ∷ rest)

abbrev pub contains : List Uuid → Uuid → Bool
contains [] id = false
contains (x ∷ xs) id = let rest = contains xs id in if x == id then true else rest

abbrev pub first : {A B : Type 0} → A × B → A
first (a, b) = a

abbrev pub second : {A B : Type 0} → A × B → B
second (a, b) = b

abbrev pub id_of : ChannelName × (Uuid × Bool) → Uuid
id_of (name, (id, new)) = id

abbrev pub without_new : ChannelName × (Uuid × Bool) → ChannelName × Uuid
without_new (name, (id, new)) = (name, id)

-- The part on stations.
unfoldable pub connect_station :
    OnConnect
    → List Uuid
    → HashMap Uuid Channel
    → HashMap Uuid StationInfo
    → Outcome (HashMap Uuid StationInfo × List Announcement)
connect_station d ids channels stations = elim (get_info stations d.station_id) [
  | some pre_info ↦
      announce_all channels (meta_station_assoc_channel d.station_id)
        (filter (λ id. not (contains pre_info.supports_channels id)) ids)
      >>= λ announced.
          returns
            (map_info stations d.station_id (λ info. record { supports_channels = ids }), announced)
  | none ↦
      let (inserted, stations') =
        insert_station d.station_id (record { supports_channels = ids }) stations in
      unwrap_result inserted >>= λ _.
      announce_all channels (meta_station_assoc_channel d.station_id) ids >>= λ announced.
      returns (stations', meta_new_station d.station_id ∷ announced)
]

unfoldable pub process_connect :
    (ℕ → Uuid)
    → OnConnect
    → Registry
    → Outcome (HashMap ChannelName Uuid × Registry × List Announcement)
process_connect draws d r = resolve_all draws d.channels [] r.known >>= λ (mappings, known).
    announce_all known.channels meta_new_channel (map id_of (filter is_new mappings))
    >>= λ new_channels.
        connect_station d (map id_of mappings) known.channels r.stations
        >>= λ (stations, announced). returns (
          map without_new mappings,
          record { stations = stations; known = known },
          new_channels ++ announced,
        )
