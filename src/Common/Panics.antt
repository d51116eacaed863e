-- ===== src/Common/Panics.antt =====
-- The outcome of Rust code that may panic (a failed assertion, a slice out of range, `unreachable!`).
use mathlib.Core.Path.{◌≡◌, refl, ap}

pub data Outcome {ℓ} (A : Type ℓ) : Type ℓ where
  returns : A → Outcome A
  panics : Outcome A

infixl 5 ◌>>=◌
abbrev pub ◌>>=◌ {ℓ κ} : {A : Type ℓ} {B : Type κ} → Outcome A → (A → Outcome B) → Outcome B
returns a >>= f = f a
panics >>= f = panics

pub returns_injective {ℓ} : {A : Type ℓ} {a b : A} → returns a ≡ returns b → a ≡ b
returns_injective {a = a} h = ap (λ o. elim o [ returns x ↦ x | panics ↦ a ]) h

-- The laws of the monad.
pub bind_assoc {ℓ κ μ} :
    {A : Type ℓ} {B : Type κ} {C : Type μ} (o : Outcome A) (f : A → Outcome B) (g : B → Outcome C)
    → ((o >>= f) >>= g) ≡ (o >>= λ a. f a >>= g)
bind_assoc (returns a) f g = refl
bind_assoc panics f g = refl

pub bind_returns {ℓ} : {A : Type ℓ} (o : Outcome A) → (o >>= λ a. returns a) ≡ o
bind_returns (returns a) = refl
bind_returns panics = refl

pub bind_cong {ℓ κ} :
    {A : Type ℓ} {B : Type κ} (o : Outcome A) (f g : A → Outcome B)
    → ((a : A) → f a ≡ g a)
    → (o >>= f) ≡ (o >>= g)
bind_cong (returns a) f g e = e a
bind_cong panics f g e = refl

pub bind_panics {ℓ κ} :
    {A : Type ℓ} {B : Type κ} (o : Outcome A) (f : A → Outcome B)
    → ((a : A) → f a ≡ panics)
    → (o >>= f) ≡ panics
bind_panics (returns a) f e = e a
bind_panics panics f e = refl
