-- ===== src/Registry/Tests.antt =====
-- A registry that knows one station and one channel.
use hayselnut.Common.{ℕ, ◌+◌, ◌≡◌, refl, List, [], ◌∷◌, ◌==◌, false, All, map, some, returns, arith}
use hayselnut.Registry.Maps.{HashMap, get}
use hayselnut.Registry.Data.{
  Uuid, ChannelName, Channel, float, periodic, uuid-HasSame, channel_name-HasSame, get_channel,
  get_info,
}
use hayselnut.Registry.Known.{IsValid, IsFresh, Grows, IsNamed}
use hayselnut.Registry.Connect.{process_connect-Connects}
use hayselnut.Registry.{OnConnect, Registry, Announcement, second, process_connect}

abbrev draws : ℕ → Uuid
draws i = i + 100

draws_apart : (i j : ℕ) → draws i ≡ draws j → i ≡ j
draws_apart i j e = omega arith

abbrev named_by : ℕ → Channel
named_by letter = record { name = record { name = letter ∷ [] }; value = float; ty = periodic }

abbrev registry : Registry
registry = record {
  stations = (7, record { supports_channels = 50 ∷ [] }) ∷ [];
  known = record { channels = (50, named_by 1) ∷ []; drawn = 0 };
}

registry-IsValid : IsValid registry.known.channels
registry-IsValid = ((refl, refl), _)

registry-IsFresh : IsFresh draws registry.known
registry-IsFresh i later =
    let other : (50 == draws i) ≡ false = ground arith in rw (other, get_channel) refl

abbrev two_channels : OnConnect
two_channels = record { station_id = 8; channels = named_by 1 ∷ (named_by 2 ∷ []) }

process_connect-Connects_example :
    (mappings : HashMap ChannelName Uuid) × (r' : Registry) × (announced : List Announcement)
    × (process_connect draws two_channels registry ≡ returns (mappings, r', announced))
    × All
        (λ ch.
          (id : Uuid) × (get mappings ch.name ≡ some id) × IsNamed r'.known.channels ch.name id)
        two_channels.channels
    × IsValid r'.known.channels
    × IsFresh draws r'.known
    × Grows registry.known.channels r'.known.channels
    × (get_info r'.stations 8 ≡ some (record { supports_channels = map second mappings }))
    × ((other : Uuid)
        → (8 == other) ≡ false
        → get_info r'.stations other ≡ get_info registry.stations other)
process_connect-Connects_example =
    process_connect-Connects draws two_channels registry draws_apart registry-IsValid
      registry-IsFresh
