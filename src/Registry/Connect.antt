-- ===== src/Registry/Connect.antt =====
-- What a station is told when it connects (`process_connect` of haysel/src/registry.rs).
use hayselnut.Common.{
  ℕ, ◌≡◌, ◌∙◌, refl, sym, ap, Bool, true, false, not, List, [], ◌∷◌, ◌++◌, map, some, inl, inr,
  Bool-cases, Option-cases, All, All_imp, arith, ◌==◌, returns,
}
use hayselnut.Registry.Maps.{HashMap, get, insert, contains_key}
use hayselnut.Registry.Data.{
  Uuid, ChannelName, Channel, uuid-HasSame, channel_name-HasSame, same_name, id_by_name,
  get_channel, Channels, StationInfo, get_info, map_info,
}
use hayselnut.Registry.Known.{
  IsValid, IsFresh, Grows, IsNamed, named, insert_channel_lem, get-insert, get-insert_other,
  insert_station_new, IsNamed-later, All-insert, All-get, contains_key-get, contains_key-insert,
  contains_key-insert_other,
}
use hayselnut.Registry.{
  OnConnect, Registry, Announcement, meta_new_station, meta_new_channel, meta_station_assoc_channel,
  resolve, resolve_all, is_new, filter, announce_all, contains, id_of, without_new, second,
  connect_station, process_connect,
}

abbrev IsMapped : HashMap Uuid Channel → ChannelName × (Uuid × Bool) → Type 0
IsMapped channels (name, (id, new)) = IsNamed channels name id

module _ (draws : ℕ → Uuid) (apart : (i j : ℕ) → draws i ≡ draws j → i ≡ j) where
  -- How a step of the connection leaves the channels.
  abbrev IsStep : Channels → Channels → Type 0
  IsStep before after =
      IsValid after.channels × IsFresh draws after × Grows before.channels after.channels

  resolve_lem :
      (ch : Channel) (known : Channels)
      → IsValid known.channels
      → IsFresh draws known
      → (id : Uuid) × (new : Bool) × (known' : Channels) × (resolve draws ch known
          ≡ returns ((id, new), known'))
        × IsStep known known'
        × IsNamed known'.channels ch.name id
  resolve_lem ch known valid fresh = elim (Option-cases (id_by_name known.channels ch.name)) [
    | inl new_name ↦
        let (known', inserted, valid', fresh', grows, new) =
          insert_channel_lem draws ch known apart valid fresh new_name in
        (
          draws known.drawn,
          true,
          known',
          rw (new_name, resolve) (rw (inserted, resolve) refl),
          (valid', fresh', grows),
          (ch, new, refl),
        )
    | inr (id, found) ↦ (
      id,
      false,
      known,
      rw (found, resolve) refl,
      (valid, fresh, λ j c before. before),
      named known.channels ch.name id valid found,
    )
  ]

  resolve_all_lem :
      (chs : List Channel) (mappings : HashMap ChannelName (Uuid × Bool)) (known : Channels)
      → IsValid known.channels
      → IsFresh draws known
      → All (IsMapped known.channels) mappings
      → (mappings' : HashMap ChannelName (Uuid × Bool)) × (known' : Channels) × (resolve_all draws
            chs mappings known
          ≡ returns (mappings', known'))
        × IsStep known known'
        × All (IsMapped known'.channels) mappings'
        × ((name : ChannelName)
            → contains_key mappings name ≡ true
            → contains_key mappings' name ≡ true)
        × All (λ ch. contains_key mappings' ch.name ≡ true) chs
  resolve_all_lem [] mappings known valid fresh mapped =
      (mappings, known, refl, (valid, fresh, λ j c before. before), mapped, λ name there. there, _)
  resolve_all_lem (ch ∷ chs) mappings known valid fresh mapped =
      let (id, new, known', resolved, (valid', fresh', grows), this) =
        resolve_lem ch known valid fresh in
      let later = insert mappings ch.name (id, new) in
      let mapped' : All (IsMapped known'.channels) later =
        All-insert (IsMapped known'.channels) mappings ch.name (id, new)
          (All_imp (IsMapped known.channels) (IsMapped known'.channels) mappings
            (λ (name, (i, n)) before.
              IsNamed-later known.channels known'.channels name i grows before)
            mapped)
          this in
      let (mappings', known'', all_resolved, (valid'', fresh'', grows'), mapped'', kept, covered) =
        resolve_all_lem chs later known' valid' fresh' mapped' in
      (
        mappings',
        known'',
        rw (resolved, resolve_all) all_resolved,
        (valid'', fresh'', λ j c before. grows' j c (grows j c before)),
        mapped'',
        λ name there. kept name (contains_key-insert_other mappings name ch.name (id, new) there),
        (kept ch.name (contains_key-insert mappings ch.name (id, new)), covered),
      )

-- Every id is that of a channel.
abbrev pub AreKnown : HashMap Uuid Channel → List Uuid → Type 0
AreKnown channels ids = All (λ id. (ch : Channel) × (get_channel channels id ≡ some ch)) ids

announce_all_lem :
    (channels : HashMap Uuid Channel) (kind : Uuid → Channel → Announcement)
    (P : Announcement → Type 0) (ids : List Uuid)
    → ((id : Uuid) (ch : Channel) → P (kind id ch))
    → AreKnown channels ids
    → (announced : List Announcement) × (announce_all channels kind ids ≡ returns announced)
      × All P announced
announce_all_lem channels kind P [] each all = ([], refl, _)
announce_all_lem channels kind P (id ∷ ids) each ((ch, found), rest) =
    let (announced, e, told) = announce_all_lem channels kind P ids each rest in
    (
      kind id ch ∷ announced,
      rw (found, announce_all) (rw (e, announce_all) refl),
      (each id ch, told),
    )

abbrev pub is_new_channel : Announcement → Bool
is_new_channel (meta_new_station id) = false
is_new_channel (meta_new_channel id ch) = true
is_new_channel (meta_station_assoc_channel station id ch) = false

-- None of these says that there is a new channel.
abbrev pub TellsNoChannel : List Announcement → Type 0
TellsNoChannel announced = All (λ a. is_new_channel a ≡ false) announced

All-filter :
    {A : Type 0} (P : A → Type 0) (test : A → Bool) (xs : List A)
    → All P xs
    → All P (filter test xs)
All-filter P test [] all = _
All-filter P test (x ∷ xs) (here, rest) = elim (Bool-cases (test x)) [
  | inl e ↦ rw e (here, All-filter P test xs rest)
  | inr e ↦ rw e (All-filter P test xs rest)
]

All-map :
    {A B : Type 0} (P : B → Type 0) (f : A → B) (xs : List A)
    → All (λ x. P (f x)) xs
    → All P (map f xs)
All-map P f [] all = _
All-map P f (x ∷ xs) (here, rest) = (here, All-map P f xs rest)

get-without_new :
    (m : HashMap ChannelName (Uuid × Bool)) (name : ChannelName) (id : Uuid) (new : Bool)
    → get m name ≡ some (id, new)
    → get (map without_new m) name ≡ some id
get-without_new [] name id new found = absurd (ground (arith, found))
get-without_new ((n, (i, b)) ∷ m) name id new found = elim (Bool-cases (same_name n name)) [
  | inl e ↦ rw e (ground (arith, found, e))
  | inr e ↦ rw e (get-without_new m name id new (ground (arith, found, e)))
]

ids_of_mappings :
    (m : HashMap ChannelName (Uuid × Bool)) → map second (map without_new m) ≡ map id_of m
ids_of_mappings [] = refl
ids_of_mappings ((name, (id, new)) ∷ m) = ap (λ ids. id ∷ ids) (ids_of_mappings m)

pub connect_station_lem :
    (d : OnConnect) (ids : List Uuid) (channels : HashMap Uuid Channel)
    (stations : HashMap Uuid StationInfo)
    → AreKnown channels ids
    → (stations' : HashMap Uuid StationInfo) × (announced : List Announcement) × (connect_station d
          ids channels stations
        ≡ returns (stations', announced))
      × (get_info stations' d.station_id ≡ some (record { supports_channels = ids }))
      × ((other : Uuid)
          → (d.station_id == other) ≡ false
          → get_info stations' other ≡ get_info stations other)
      × TellsNoChannel announced
unfolding connect_station
connect_station_lem d ids channels stations known =
    elim (Option-cases (get_info stations d.station_id)) [
      | inl new ↦
          let (announced, e, told) =
            announce_all_lem channels (meta_station_assoc_channel d.station_id)
              (λ a. is_new_channel a ≡ false) ids (λ id ch. refl) known in
          (
            insert stations d.station_id (record { supports_channels = ids }),
            meta_new_station d.station_id ∷ announced,
            rw (new, connect_station)
                (rw
                  (
                    insert_station_new d.station_id (record { supports_channels = ids }) stations
                        new,
                    connect_station,
                  )
                  (rw e refl)),
            get-insert stations d.station_id (record { supports_channels = ids }),
            λ other apart.
                get-insert_other stations d.station_id other (record { supports_channels = ids })
                  apart,
            (refl, told),
          )
      | inr (pre_info, found) ↦
          let (announced, e, told) =
            announce_all_lem channels (meta_station_assoc_channel d.station_id)
              (λ a. is_new_channel a ≡ false)
              (filter (λ id. not (contains pre_info.supports_channels id)) ids) (λ id ch. refl)
              (All-filter (λ id. (ch : Channel) × (get_channel channels id ≡ some ch))
                (λ id. not (contains pre_info.supports_channels id)) ids known) in
          (
            insert stations d.station_id (record { supports_channels = ids }),
            announced,
            rw (found, connect_station) (rw e (rw (found, map_info) refl)),
            get-insert stations d.station_id (record { supports_channels = ids }),
            λ other apart.
                get-insert_other stations d.station_id other (record { supports_channels = ids })
                  apart,
            told,
          )
    ]

-- Where the ids and names of the known channels are each of one channel, and the ids that are drawn are
-- different and not known, process_connect does not panic. Each channel of the station is then mapped to an
-- id by which a channel of its name is known, ids and names are still each of one channel, the channels that
-- were known still are, the station is known with the mapped ids, and the other stations are as they were.
pub process_connect-Connects :
    (draws : ℕ → Uuid) (d : OnConnect) (r : Registry)
    → ((i j : ℕ) → draws i ≡ draws j → i ≡ j)
    → IsValid r.known.channels
    → IsFresh draws r.known
    → (mappings : HashMap ChannelName Uuid) × (r' : Registry) × (announced : List Announcement)
      × (process_connect draws d r ≡ returns (mappings, r', announced))
      × All
          (λ ch.
            (id : Uuid) × (get mappings ch.name ≡ some id) × IsNamed r'.known.channels ch.name id)
          d.channels
      × IsValid r'.known.channels
      × IsFresh draws r'.known
      × Grows r.known.channels r'.known.channels
      × (get_info r'.stations d.station_id
          ≡ some (record { supports_channels = map second mappings }))
      × ((other : Uuid)
          → (d.station_id == other) ≡ false
          → get_info r'.stations other ≡ get_info r.stations other)
unfolding process_connect
process_connect-Connects draws d r apart valid fresh =
    let (mappings, known, resolved, (valid', fresh', grows), mapped, _, covered) =
      resolve_all_lem draws apart d.channels [] r.known valid fresh _ in
    let has_channel : All (λ e. (ch : Channel) × (get_channel known.channels (id_of e) ≡ some ch))
        mappings =
      All_imp (IsMapped known.channels)
        (λ e. (ch : Channel) × (get_channel known.channels (id_of e) ≡ some ch)) mappings
        (λ (name, (id, new)) (ch, (found, _), _). (ch, found)) mapped in
    let (new_channels, e, _) =
      announce_all_lem known.channels meta_new_channel (λ a. Unit {0})
        (map id_of (filter is_new mappings)) (λ id ch. _)
        (All-map (λ id. (ch : Channel) × (get_channel known.channels id ≡ some ch)) id_of
          (filter is_new mappings)
          (All-filter (λ e. (ch : Channel) × (get_channel known.channels (id_of e) ≡ some ch))
            is_new mappings has_channel)) in
    let (stations, announced, connected, now_known, kept, _) =
      connect_station_lem d (map id_of mappings) known.channels r.stations (
        All-map (λ id. (ch : Channel) × (get_channel known.channels id ≡ some ch)) id_of mappings
          has_channel) in
    (
      map without_new mappings,
      record { stations = stations; known = known },
      new_channels ++ announced,
      rw (resolved, process_connect) (rw e (rw connected refl)),
      All_imp (λ (ch : Channel). contains_key mappings ch.name ≡ true)
          (λ ch.
            (id : Uuid) × (get (map without_new mappings) ch.name ≡ some id)
            × IsNamed known.channels ch.name id)
          d.channels
          (λ ch there.
            let ((id, new), found) = contains_key-get mappings ch.name there in
            (
              id,
              get-without_new mappings ch.name id new found,
              All-get (IsMapped known.channels) mappings ch.name (id, new) mapped found,
            ))
          covered,
      valid',
      fresh',
      grows,
      now_known
          ∙ ap (λ ids. some (record { supports_channels = ids })) (sym (ids_of_mappings mappings)),
      kept,
    )
