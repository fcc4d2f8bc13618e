-- ===== src/Prelude/Outcome.antt =====
-- What a call that may panic does. The worker thread does not survive a panic.
use mathlib.Core.Path.{◌≡◌, refl, ap}
use mathlib.Core.Logic.{◌⊎◌, inl, inr}
use mathlib.Core.Option.{Option, none, some}

pub data Outcome {ℓ} (A : Type ℓ) : Type ℓ where
  ok : A → Outcome A
  panic : Outcome A

infixl 5 ◌>>=◌
abbrev pub ◌>>=◌ {ℓ κ} : {A : Type ℓ} {B : Type κ} → Outcome A → (A → Outcome B) → Outcome B
ok a >>= f = f a
panic >>= f = panic

-- Rust's `unwrap_or_else(|e| panic!(..))`.
abbrev pub or_panic {ℓ} : {A : Type ℓ} → Option A → Outcome A
or_panic none = panic
or_panic (some a) = ok a

-- Inversion of a chain that did not panic.
pub >>=-eq-ok {ℓ κ} :
    {A : Type ℓ} {B : Type κ} (first : Outcome A) (next : A → Outcome B) {y : B}
    → (first >>= next) ≡ ok y
    → (x : A) × (first ≡ ok x) × (next x ≡ ok y)
>>=-eq-ok panic next h = cc
>>=-eq-ok (ok x) next h = (x, refl, h)

pub Outcome-cases {ℓ} : {A : Type ℓ} (o : Outcome A) → (o ≡ panic) ⊎ ((a : A) × (o ≡ ok a))
Outcome-cases panic = inl refl
Outcome-cases (ok a) = inr (a, refl)

-- The same for a chain of two calls and a result.
pub >>=->>=-eq-ok {ℓ κ μ} :
    {A : Type ℓ} {B : Type κ} {C : Type μ} (m : Outcome A) (n : A → Outcome B) (g : A → B → C)
    {x : C}
    → (m >>= λ a. n a >>= λ b. ok (g a b)) ≡ ok x
    → (a : A) × (b : B) × (m ≡ ok a) × (n a ≡ ok b) × (x ≡ g a b)
>>=->>=-eq-ok (ok a) n g h = elim (Outcome-cases (n a)) [
  | inl e ↦ cc (ap (λ o. o >>= λ b. ok (g a b)) e)
  | inr (b, e) ↦ (a, b, refl, e, cc (ap (λ o. o >>= λ b. ok (g a b)) e))
]
>>=->>=-eq-ok panic n g h = cc
