-- ===== src/Prelude/Outcome.antt =====
-- Partial operations: `none` stands for a failed assertion, an exception or an undefined access.
use mathlib.Core.Path.{◌≡◌, refl, ap, ◌∙◌}
use mathlib.Core.Logic.{◌⊎◌, inl, inr}
use mathlib.Core.Bool.{true, false}
use mathlib.Core.Option.{Option, none, some}

-- A chain of operations that may fault.
infixl 5 ◌>>=◌
abbrev pub ◌>>=◌ {ℓ κ} : {A : Type ℓ} {B : Type κ} → Option A → (A → Option B) → Option B
none >>= f = none
some a >>= f = f a

-- Inversion of a successful chain.
pub >>=-eq-some {ℓ κ} :
    {A : Type ℓ} {B : Type κ} (m : Option A) (f : A → Option B) {b : B}
    → (m >>= f) ≡ some b
    → (a : A) × (m ≡ some a) × (f a ≡ some b)
>>=-eq-some none f h = cc
>>=-eq-some (some a) f h = (a, refl, h)

-- A chain goes on with what its first part gives.
pub >>=-some {ℓ κ} :
    {A : Type ℓ} {B : Type κ} (m : Option A) (f : A → Option B) {a : A} {b : B}
    → m ≡ some a
    → f a ≡ some b
    → (m >>= f) ≡ some b
>>=-some m f e g = ap (λ o. o >>= f) e ∙ g

-- To split on a result and keep the equation.
pub Sum-cases {ℓ κ} :
    {A : Type ℓ} {B : Type κ} (r : A ⊎ B) → ((a : A) × (r ≡ inl a)) ⊎ ((b : B) × (r ≡ inr b))
Sum-cases (inl a) = inl (a, refl)
Sum-cases (inr b) = inr (b, refl)

module _ {ℓ κ} {A : Type ℓ} {B : Type κ} where
  pub same_inl : {x y : A} → ◌≡◌ {A = A ⊎ B} (inl x) (inl y) → x ≡ y
  same_inl h = cc

  pub same_inr : {x y : B} → ◌≡◌ {A = A ⊎ B} (inr x) (inr y) → x ≡ y
  same_inr h = cc

  pub inl≢inr : {x : A} {y : B} → ◌≡◌ {A = A ⊎ B} (inl x) (inr y) → ⊥
  inl≢inr h = cc

module _ {ℓ} {A : Type ℓ} where
  pub same_some : {x y : A} → some x ≡ some y → x ≡ y
  same_some h = cc

  pub none≢some : {x : A} → none ≡ some x → ⊥
  none≢some h = cc

pub true≢false : true ≡ false → ⊥
true≢false h = cc
