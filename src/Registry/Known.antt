-- ===== src/Registry/Known.antt =====
-- What is known stays known when a channel is added.
use hayselnut.Common.{
  ℕ, ◌+◌, ◌≤◌, ◌≡◌, ◌∙◌, refl, sym, ap, subst, true, false, [], ◌∷◌, ◌++◌, none, some, inl, inr,
  Bool-cases, Option-cases, All, All_imp, All-append, arith, eq_of_==, ◌==◌,
}
use hayselnut.Registry.Maps.{HasSame, HashMap, get, insert, contains_key}
use hayselnut.Registry.Data.{
  Uuid, ChannelName, Channel, uuid-HasSame, same_name, same_name_iff, id_by_name, get_channel,
  Channels, insert_channel, ok, StationInfo, get_info, insert_station,
}

module _ {K V : Type 0} ⦃keys : HasSame K⦄ where
  open keys use {same, same_iff}

  pub get-insert : (m : HashMap K V) (k : K) (v : V) → get (insert m k v) k ≡ some v
  get-insert [] k v = rw ((same_iff k k).1 refl) refl
  get-insert ((j, w) ∷ m) k v = elim (Bool-cases (same j k)) [
    | inl e ↦ rw e (rw ((same_iff k k).1 refl) refl)
    | inr e ↦ rw e (rw (e, get) (get-insert m k v))
  ]

  pub get-insert_other :
      (m : HashMap K V) (j k : K) (v : V) → same j k ≡ false → get (insert m j v) k ≡ get m k
  get-insert_other [] j k v other = rw other refl
  get-insert_other ((i, w) ∷ m) j k v other = elim (Bool-cases (same i j)) [
    | inl e ↦
        let apart : same i k ≡ false =
          subst (λ i. same i k ≡ false) (sym ((same_iff i j).0 e)) other in
        rw e (rw (other, get) (rw apart refl))
    | inr e ↦ rw e (elim (Bool-cases (same i k)) [
      | inl e' ↦ rw (e', get) refl
      | inr e' ↦ rw (e', get) (get-insert_other m j k v other)
    ])
  ]

  -- A new key is put last.
  pub insert_new :
      (m : HashMap K V) (k : K) (v : V) → get m k ≡ none → insert m k v ≡ m ++ ((k, v) ∷ [])
  insert_new [] k v new = refl
  insert_new ((j, w) ∷ m) k v new = elim (Bool-cases (same j k)) [
    | inl e ↦ absurd (ground (arith, new, e))
    | inr e ↦ rw e (ap (λ m'. (j, w) ∷ m') (insert_new m k v (ground (arith, new, e))))
  ]

  pub get-append : (m n : HashMap K V) (k : K) (v : V) → get m k ≡ some v → get (m ++ n) k ≡ some v
  get-append [] n k v found = absurd (ground (arith, found))
  get-append ((j, w) ∷ m) n k v found = elim (Bool-cases (same j k)) [
    | inl e ↦ rw e (ground (arith, found, e))
    | inr e ↦ rw e (get-append m n k v (ground (arith, found, e)))
  ]

  pub get-append_none : (m n : HashMap K V) (k : K) → get m k ≡ none → get (m ++ n) k ≡ get n k
  get-append_none [] n k none_yet = refl
  get-append_none ((j, w) ∷ m) n k none_yet = elim (Bool-cases (same j k)) [
    | inl e ↦ absurd (ground (arith, none_yet, e))
    | inr e ↦ rw e (get-append_none m n k (ground (arith, none_yet, e)))
  ]

module _ {K V : Type 0} ⦃keys : HasSame K⦄ where
  open keys use {same, same_iff}

  pub All-insert :
      (P : K × V → Type 0) (m : HashMap K V) (k : K) (v : V)
      → All P m
      → P (k, v)
      → All P (insert m k v)
  All-insert P [] k v all this = (this, _)
  All-insert P ((j, w) ∷ m) k v (here, rest) this = elim (Bool-cases (same j k)) [
    | inl e ↦ rw e (this, rest)
    | inr e ↦ rw e (here, All-insert P m k v rest this)
  ]

  pub contains_key-get :
      (m : HashMap K V) (k : K) → contains_key m k ≡ true → (v : V) × (get m k ≡ some v)
  contains_key-get m k there = elim (Option-cases (get m k)) [
    | inl e ↦ absurd (ground (arith, there, e))
    | inr found ↦ found
  ]

  pub contains_key-insert : (m : HashMap K V) (k : K) (v : V) → contains_key (insert m k v) k ≡ true
  contains_key-insert m k v = rw (get-insert m k v, contains_key) refl

  pub contains_key-insert_other :
      (m : HashMap K V) (j k : K) (v : V)
      → contains_key m j ≡ true
      → contains_key (insert m k v) j ≡ true
  contains_key-insert_other m j k v there = elim (Bool-cases (same k j)) [
    | inl e ↦
        subst (λ i. contains_key (insert m k v) i ≡ true) ((same_iff k j).0 e)
          (contains_key-insert m k v)
    | inr e ↦ rw (get-insert_other m k j v e, contains_key) there
  ]

  -- What holds of every entry holds of the one that is found.
  pub All-get :
      (P : K × V → Type 0) (m : HashMap K V) (k : K) (v : V) → All P m → get m k ≡ some v → P (k, v)
  All-get P [] k v all found = absurd (ground (arith, found))
  All-get P ((j, w) ∷ m) k v (here, rest) found = elim (Bool-cases (same j k)) [
    | inl e ↦
        let this : w ≡ v = ground (arith, found, e) in
        subst (λ i. P (i, v)) ((same_iff j k).0 e) (subst (λ u. P (j, u)) this here)
    | inr e ↦ All-get P m k v rest (ground (arith, found, e))
  ]

id_by_name-append :
    (m n : HashMap Uuid Channel) (name : ChannelName) (id : Uuid)
    → id_by_name m name ≡ some id
    → id_by_name (m ++ n) name ≡ some id
id_by_name-append [] n name id found = absurd (ground (arith, found))
id_by_name-append ((j, ch) ∷ m) n name id found = elim (Bool-cases (same_name ch.name name)) [
  | inl e ↦ rw e (ground (arith, found, e))
  | inr e ↦ rw e (id_by_name-append m n name id (ground (arith, found, e)))
]

id_by_name-append_none :
    (m n : HashMap Uuid Channel) (name : ChannelName)
    → id_by_name m name ≡ none
    → id_by_name (m ++ n) name ≡ id_by_name n name
id_by_name-append_none [] n name none_yet = refl
id_by_name-append_none ((j, ch) ∷ m) n name none_yet = elim (Bool-cases (same_name ch.name name)) [
  | inl e ↦ absurd (ground (arith, none_yet, e))
  | inr e ↦ rw e (id_by_name-append_none m n name (ground (arith, none_yet, e)))
]

-- The channel is found by its id, and the id by the channel's name.
abbrev pub IsKnown : HashMap Uuid Channel → Uuid → Channel → Type 0
IsKnown channels id ch =
    (get_channel channels id ≡ some ch) × (id_by_name channels ch.name ≡ some id)

-- Ids and names are each of one channel.
abbrev pub IsValid : HashMap Uuid Channel → Type 0
IsValid channels = All (λ (id, ch). IsKnown channels id ch) channels

module _ (channels : HashMap Uuid Channel) (id : Uuid) (ch : Channel)
    (new_id : get_channel channels id ≡ none) (new_name : id_by_name channels ch.name ≡ none) where
  abbrev with_new : HashMap Uuid Channel
  with_new = channels ++ ((id, ch) ∷ [])

  IsKnown-later : (j : Uuid) (c : Channel) → IsKnown channels j c → IsKnown with_new j c
  IsKnown-later j c (found, named) = (
    get-append channels ((id, ch) ∷ []) j c found,
    id_by_name-append channels ((id, ch) ∷ []) c.name j named,
  )

  IsKnown-new : IsKnown with_new id ch
  IsKnown-new =
      let this_id : (id == id) ≡ true = ground arith in
      let this_name : same_name ch.name ch.name ≡ true = (same_name_iff ch.name ch.name).1 refl in
      (
        get-append_none channels ((id, ch) ∷ []) id new_id ∙ rw this_id refl,
        id_by_name-append_none channels ((id, ch) ∷ []) ch.name new_name ∙ rw this_name refl,
      )

  IsValid-later : IsValid channels → IsValid with_new
  IsValid-later valid =
      All-append (λ (j, c). IsKnown with_new j c) channels ((id, ch) ∷ [])
        (All_imp (λ (j, c). IsKnown channels j c) (λ (j, c). IsKnown with_new j c) channels
          (λ (j, c) known. IsKnown-later j c known) valid)
        (IsKnown-new, _)

-- No later draw is an id that is known.
abbrev pub IsFresh : (ℕ → Uuid) → Channels → Type 0
IsFresh draws known = (i : ℕ) → known.drawn ≤ i → get_channel known.channels (draws i) ≡ none

abbrev pub Grows : HashMap Uuid Channel → HashMap Uuid Channel → Type 0
Grows before after = (id : Uuid) (ch : Channel) → IsKnown before id ch → IsKnown after id ch

-- The id is that of a channel of this name.
abbrev pub IsNamed : HashMap Uuid Channel → ChannelName → Uuid → Type 0
IsNamed channels name id = (ch : Channel) × IsKnown channels id ch × (ch.name ≡ name)

found_by_name :
    (m : HashMap Uuid Channel) (P : Uuid × Channel → Type 0) (name : ChannelName) (id : Uuid)
    → All P m
    → id_by_name m name ≡ some id
    → (ch : Channel) × P (id, ch) × (ch.name ≡ name)
found_by_name [] P name id all found = absurd (ground (arith, found))
found_by_name ((j, ch) ∷ m) P name id (here, rest) found =
    elim (Bool-cases (same_name ch.name name)) [
      | inl e ↦
          let this : id ≡ j = ground (arith, found, e) in
          (ch, subst (λ i. P (i, ch)) (sym this) here, (same_name_iff ch.name name).0 e)
      | inr e ↦ found_by_name m P name id rest (ground (arith, found, e))
    ]

pub named :
    (channels : HashMap Uuid Channel) (name : ChannelName) (id : Uuid)
    → IsValid channels
    → id_by_name channels name ≡ some id
    → IsNamed channels name id
named channels name id valid found =
    found_by_name channels (λ (j, c). IsKnown channels j c) name id valid found

pub IsNamed-later :
    (before after : HashMap Uuid Channel) (name : ChannelName) (id : Uuid)
    → Grows before after
    → IsNamed before name id
    → IsNamed after name id
IsNamed-later before after name id grows (ch, known, this_name) = (ch, grows id ch known, this_name)

-- A channel with a new name gets a new id, is known by it, and whatever was known is still.
pub insert_channel_lem :
    (draws : ℕ → Uuid) (ch : Channel) (known : Channels)
    → ((i j : ℕ) → draws i ≡ draws j → i ≡ j)
    → IsValid known.channels
    → IsFresh draws known
    → id_by_name known.channels ch.name ≡ none
    → (known' : Channels) × (insert_channel draws ch known ≡ (ok (draws known.drawn), known'))
      × IsValid known'.channels
      × IsFresh draws known'
      × Grows known.channels known'.channels
      × IsKnown known'.channels (draws known.drawn) ch
unfolding insert_channel
insert_channel_lem draws ch known apart valid fresh new_name =
    let id = draws known.drawn in
    let new_id : get_channel known.channels id ≡ none = fresh known.drawn (omega arith) in
    let last : insert known.channels id ch ≡ known.channels ++ ((id, ch) ∷ []) =
      insert_new known.channels id ch new_id in
    (
      record { channels = known.channels ++ ((id, ch) ∷ []); drawn = known.drawn + 1 },
      rw (new_name, insert_channel) (rw last refl),
      IsValid-later known.channels id ch new_id new_name valid,
      λ i later.
          let other : (id == draws i) ≡ false = elim (Bool-cases (id == draws i)) [
            | inl e ↦ absurd (omega (arith, apart known.drawn i (eq_of_== id (draws i) e)))
            | inr e ↦ e
          ] in
          get-append_none known.channels ((id, ch) ∷ []) (draws i) (fresh i (omega arith))
          ∙ rw other refl,
      λ j c before. IsKnown-later known.channels id ch new_id new_name j c before,
      IsKnown-new known.channels id ch new_id new_name,
    )

pub insert_station_new :
    (id : Uuid) (info : StationInfo) (ids : HashMap Uuid StationInfo)
    → get_info ids id ≡ none
    → insert_station id info ids ≡ (ok _, insert ids id info)
unfolding insert_station
insert_station_new id info ids new = rw (new, contains_key) refl
