-- ===== src/Registry/Repeated.antt =====
-- A new channel that a station lists more than once (`process_connect` of haysel/src/registry.rs).
use hayselnut.Common.{
  ℕ, ◌≡◌, ◌∙◌, refl, sym, ap, subst, true, false, List, [], ◌∷◌, none, some, All, returns,
}
use hayselnut.Registry.Maps.{HashMap, insert}
use hayselnut.Registry.Data.{
  Uuid, ChannelName, Channel, uuid-HasSame, channel_name-HasSame, same_name, same_name_iff,
  id_by_name, Channels,
}
use hayselnut.Registry.Known.{IsValid, IsFresh, insert_channel_lem}
use hayselnut.Registry.Connect.{TellsNoChannel, connect_station_lem}
use hayselnut.Registry.{OnConnect, Registry, Announcement, resolve, resolve_all, process_connect}

-- From the second time on, the name is known.
resolve_all-again :
    (draws : ℕ → Uuid) (chs : List Channel) (name : ChannelName) (id : Uuid) (known : Channels)
    → id_by_name known.channels name ≡ some id
    → All (λ c. c.name ≡ name) chs
    → resolve_all draws chs ((name, (id, false)) ∷ []) known
      ≡ returns ((name, (id, false)) ∷ [], known)
resolve_all-again draws [] name id known found same = refl
resolve_all-again draws (ch ∷ chs) name id known found (here, rest) =
    let found' : id_by_name known.channels ch.name ≡ some id = rw here found in
    let this : same_name name ch.name ≡ true = (same_name_iff name ch.name).1 (sym here) in
    rw (found', resolve_all, resolve)
      (rw (this, insert)
        (subst
          (λ n.
            resolve_all draws chs ((n, (id, false)) ∷ []) known
            ≡ returns ((name, (id, false)) ∷ [], known))
          (sym here) (resolve_all-again draws chs name id known found rest)))

-- A station whose channels all have one name that is not known, and which lists more than one, makes the
-- registry know a channel of that name, but nothing that is announced says that there is a new channel.
pub process_connect-TellsNoChannel :
    (draws : ℕ → Uuid) (d : OnConnect) (r : Registry) (ch ch' : Channel) (chs : List Channel)
    → ((i j : ℕ) → draws i ≡ draws j → i ≡ j)
    → IsValid r.known.channels
    → IsFresh draws r.known
    → d.channels ≡ ch ∷ (ch' ∷ chs)
    → All (λ c. c.name ≡ ch.name) (ch' ∷ chs)
    → id_by_name r.known.channels ch.name ≡ none
    → (mappings : HashMap ChannelName Uuid) × (r' : Registry) × (announced : List Announcement)
      × (process_connect draws d r ≡ returns (mappings, r', announced))
      × (id_by_name r'.known.channels ch.name ≡ some (draws r.known.drawn))
      × TellsNoChannel announced
unfolding process_connect
process_connect-TellsNoChannel draws d r ch ch' chs apart valid fresh listed (same', same)
      new_name =
    let id = draws r.known.drawn in
    let (known, inserted, valid', fresh', grows, (found, by_name)) =
      insert_channel_lem draws ch r.known apart valid fresh new_name in
    let again : id_by_name known.channels ch'.name ≡ some id = rw same' by_name in
    let this : same_name ch.name ch'.name ≡ true = (same_name_iff ch.name ch'.name).1 (sym same') in
    let resolved : resolve_all draws d.channels [] r.known
        ≡ returns ((ch.name, (id, false)) ∷ [], known) =
      ap (λ chs. resolve_all draws chs [] r.known) listed
      ∙ rw (new_name, resolve_all, resolve)
          (rw (inserted, resolve_all)
            (rw (again, resolve_all, resolve)
              (rw (this, insert)
                (subst
                  (λ n.
                    resolve_all draws chs ((n, (id, false)) ∷ []) known
                    ≡ returns ((ch.name, (id, false)) ∷ [], known))
                  (sym same') (resolve_all-again draws chs ch.name id known by_name same))))) in
    let (stations, announced, connected, _, _, told) =
      connect_station_lem d (id ∷ []) known.channels r.stations ((ch, found), _) in
    (
      (ch.name, id) ∷ [],
      record { stations = stations; known = known },
      announced,
      rw (resolved, process_connect) (rw connected refl),
      by_name,
      told,
    )
