-- ===== src/Registry/Data.antt =====
-- The known stations and channels (haysel/squirrel/src/api/station/identity.rs and capabilities.rs).
use hayselnut.Common.{
  ℕ, ◌+◌, ◌≡◌, refl, Bool, true, false, not, List, [], ◌∷◌, ◌==◌, ==_iff, if◌then◌else◌, Option,
  Bool-cases, eq_of_==, inl, inr, ap, ap₂, arith, ◌↔◌, subst, none, some,
}
use hayselnut.Registry.Maps.{HasSame, HashMap, get, contains_key, insert}

abbrev pub Uuid : Type 0
Uuid = ℕ

-- The bytes of a string.
abbrev pub same_string : List ℕ → List ℕ → Bool
same_string [] [] = true
same_string [] (b ∷ t) = false
same_string (a ∷ s) [] = false
same_string (a ∷ s) (b ∷ t) = elim (a == b) [ true ↦ same_string s t | false ↦ false ]

pub record ChannelName : Type 0 where
  pub name : List ℕ

abbrev pub same_name : ChannelName → ChannelName → Bool
same_name a b = same_string a.name b.name

pub data ChannelValue : Type 0 where
  float : ChannelValue
  event : HashMap (List ℕ) (List (List ℕ)) → ChannelValue

pub data ChannelType : Type 0 where
  periodic triggered : ChannelType

pub record Channel : Type 0 where
  pub name : ChannelName
  pub value : ChannelValue
  pub ty : ChannelType

pub record StationInfo : Type 0 where
  pub supports_channels : List Uuid

instance abbrev pub uuid-HasSame : HasSame Uuid
uuid-HasSame = record { same = ◌==◌; same_iff = ==_iff }

same_string→eq : (s t : List ℕ) → same_string s t ≡ true → s ≡ t
same_string→eq [] [] h = refl
same_string→eq [] (b ∷ t) h = absurd (ground (arith, h))
same_string→eq (a ∷ s) [] h = absurd (ground (arith, h))
same_string→eq (a ∷ s) (b ∷ t) h = elim (Bool-cases (a == b)) [
  | inl e ↦
      ap₂ (λ x y. x ∷ y) (eq_of_== a b e)
        (same_string→eq s t (
          let h' : elim (a == b) [ true ↦ same_string s t | false ↦ false ] ≡ true = h in
          (rw e at h')))
  | inr e ↦ absurd (ground (arith, e, h))
]

same_string_self : (s : List ℕ) → same_string s s ≡ true
same_string_self [] = refl
same_string_self (a ∷ s) =
    let e : (a == a) ≡ true = ground arith in
    let goes : elim (a == a) [ true ↦ same_string s s | false ↦ false ] ≡ true =
      rw e (same_string_self s) in
    goes

pub same_name_iff : (a b : ChannelName) → (same_name a b ≡ true) ↔ (a ≡ b)
same_name_iff a b = (
  λ h. ap (λ (n : List ℕ). record { name = n }) (same_string→eq a.name b.name h),
  λ e. subst (λ c. same_name a c ≡ true) e (same_string_self a.name),
)

instance abbrev pub channel_name-HasSame : HasSame ChannelName
channel_name-HasSame = record { same = same_name; same_iff = same_name_iff }

pub data Result (A E : Type 0) : Type 0 where
  ok : A → Result A E
  err : E → Result A E

-- KnownChannels.
abbrev pub id_by_name : HashMap Uuid Channel → ChannelName → Option Uuid
id_by_name [] n = none
id_by_name ((id, ch) ∷ m) n =
    let rest = id_by_name m n in if same_name ch.name n then some id else rest

abbrev pub get_channel : HashMap Uuid Channel → Uuid → Option Channel
get_channel channels id = get channels id

-- KnownChannels, and how many ids were drawn.
pub record Channels : Type 0 where
  pub channels : HashMap Uuid Channel
  pub drawn : ℕ

unfoldable pub insert_channel : (ℕ → Uuid) → Channel → Channels → Result Uuid Channel × Channels
insert_channel draws channel known = elim (id_by_name known.channels channel.name) [
  | some id ↦ (err channel, known)
  | none ↦ (
    ok (draws known.drawn),
    record {
      channels = insert known.channels (draws known.drawn) channel;
      drawn = known.drawn + 1;
    },
  )
]

unfoldable pub insert_channel_with_id :
    Channel → Uuid → HashMap Uuid Channel → Result (Unit {0}) Uuid × HashMap Uuid Channel
insert_channel_with_id channel id channels = elim (id_by_name channels channel.name) [
  | some existing_id ↦ (err existing_id, channels)
  | none ↦ (ok _, insert channels id channel)
]

-- KnownStations.
abbrev pub get_info : HashMap Uuid StationInfo → Uuid → Option StationInfo
get_info ids id = get ids id

abbrev pub map_info :
    HashMap Uuid StationInfo → Uuid → (StationInfo → StationInfo) → HashMap Uuid StationInfo
map_info ids id f = elim (get ids id) [ none ↦ ids | some info ↦ insert ids id (f info) ]

unfoldable pub insert_station :
    Uuid
    → StationInfo
    → HashMap Uuid StationInfo
    → Result (Unit {0}) (Uuid × StationInfo) × HashMap Uuid StationInfo
insert_station id info ids =
    if not (contains_key ids id) then (ok _, insert ids id info) else (err (id, info), ids)
