-- ===== src/Registry/Maps.antt =====
-- Hash maps as the lists of their entries, in the order in which they are visited. That order is not specified:
-- new entries are put last, and the theorems on a map are about which entries it has.
use hayselnut.Common.{◌≡◌, ◌↔◌, Bool, true, false, List, [], ◌∷◌, Option, none, some, if◌then◌else◌}

pub record HasSame (K : Type 0) : Type 0 where
  pub same : K → K → Bool
  pub same_iff : (a b : K) → (same a b ≡ true) ↔ (a ≡ b)

abbrev pub HashMap : Type 0 → Type 0 → Type 0
HashMap K V = List (K × V)

module _ {K V : Type 0} ⦃keys : HasSame K⦄ where
  open keys use {same}

  abbrev pub get : HashMap K V → K → Option V
  get [] k = none
  get ((j, v) ∷ m) k = let rest = get m k in if same j k then some v else rest

  abbrev pub contains_key : HashMap K V → K → Bool
  contains_key m k = elim (get m k) [ none ↦ false | some v ↦ true ]

  abbrev pub insert : HashMap K V → K → V → HashMap K V
  insert [] k v = (k, v) ∷ []
  insert ((j, w) ∷ m) k v =
      let rest = insert m k v in if same j k then (k, v) ∷ m else (j, w) ∷ rest
