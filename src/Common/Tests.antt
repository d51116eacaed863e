-- ===== src/Common/Tests.antt =====
-- Boolean tests on the native numbers, and the conditional.
use Prim.Native.Nat.{ℕ, zero, suc, ◌≤◌, ◌<◌, compare, Ordering}
use mathlib.Core.Path.{◌≡◌, refl}
use mathlib.Core.Logic.{◌↔◌, ◌⊎◌, inl, inr}
use mathlib.Core.Bool.{Bool, true, false}
use mathlib.Core.Option.{Option, none, some}
use native.Mathlib.Omega.{arith}

abbrev pub ltb : ℕ → ℕ → Bool
ltb a b = elim (compare a b) [ Ordering.lt ↦ true | _ ↦ false ]

abbrev pub leb : ℕ → ℕ → Bool
leb a b = elim (compare a b) [ Ordering.gt ↦ false | _ ↦ true ]

infix 50 ◌==◌
abbrev pub ◌==◌ : ℕ → ℕ → Bool
a == b = elim (compare a b) [ Ordering.eq ↦ true | _ ↦ false ]

infix 1 if◌then◌else◌
abbrev pub if◌then◌else◌ {ℓ} : {A : Type ℓ} → Bool → A → A → A
if true then x else y = x
if false then x else y = y

pub ltb→lt : (a b : ℕ) → ltb a b ≡ true → a < b
ltb→lt a b h = ground arith

pub leb→le : (a b : ℕ) → leb a b ≡ true → a ≤ b
leb→le a b h = ground arith

pub le→leb : (a b : ℕ) → a ≤ b → leb a b ≡ true
le→leb a b h = ground arith

pub ==_iff : (a b : ℕ) → ((a == b) ≡ true) ↔ (a ≡ b)
==_iff a b = ground arith

-- Splits on a computed value keep the equation.
pub Bool-cases : (b : Bool) → (b ≡ true) ⊎ (b ≡ false)
Bool-cases true = inl refl
Bool-cases false = inr refl

pub Option-cases {ℓ} : {A : Type ℓ} (o : Option A) → (o ≡ none) ⊎ ((a : A) × (o ≡ some a))
Option-cases none = inl refl
Option-cases (some a) = inr (a, refl)

-- A bounded test, by running it at each number under the bound, the greatest first.
unfoldable pub passes_under : ℕ → (ℕ → Bool) → Bool
passes_under zero test = true
passes_under (suc top) test = if test top then passes_under top test else false

pub passes_under-at :
    (bound : ℕ) (test : ℕ → Bool) (i : ℕ)
    → passes_under bound test ≡ true
    → i < bound
    → test i ≡ true
unfolding passes_under
passes_under-at zero test i passed under = absurd (omega arith)
passes_under-at (suc top) test i passed under = elim (Bool-cases (test top)) [
  | inr fails ↦ absurd (ground (arith, fails, passed))
  | inl holds ↦
      let rest : passes_under top test ≡ true = ground (arith, holds, passed) in
      let place : (i ≡ top) ⊎ (i < top) = omega arith in
      elim place [
        | inl last ↦ rw last holds
        | inr earlier ↦ passes_under-at top test i rest earlier
      ]
]

-- Two equal numbers, from their test.
pub eq_of_== : (a b : ℕ) → (a == b) ≡ true → a ≡ b
eq_of_== a b h = ground arith
