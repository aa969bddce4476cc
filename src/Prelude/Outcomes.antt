-- ===== src/Prelude/Outcomes.antt =====
-- How a run of the code ends: with a value, with a panic, or not within the fuel that it was given.
use mathlib.Core.Path.{◌≡◌, refl, sym, ◌∙◌, subst}
use mathlib.Core.Logic.{◌⊎◌, inl, inr}
use mathlib.Core.Bool.{Bool, true, false}
use mathlib.Core.Option.{Option, none, some}

pub data Outcome {ℓ} (A : Type ℓ) : Type ℓ where
  ok : A → Outcome A
  panic : Outcome A
  out_of_fuel : Outcome A

infixl 5 ◌>>=◌ ◌>>◌
abbrev pub ◌>>=◌ {ℓ κ} : {A : Type ℓ} {B : Type κ} → Outcome A → (A → Outcome B) → Outcome B
ok a >>= f = f a
panic >>= f = panic
out_of_fuel >>= f = out_of_fuel

abbrev pub ◌>>◌ {ℓ} : {B : Type ℓ} → Outcome (Unit {0}) → Outcome B → Outcome B
m >> k = m >>= λ _. k

-- `map[&key]` and `.expect(..)` panic on a missing value.
abbrev pub expect {ℓ} : {A : Type ℓ} → Option A → Outcome A
expect none = panic
expect (some a) = ok a

-- `assert!`
abbrev pub assert : Bool → Outcome (Unit {0})
assert true = ok tt
assert false = panic

-- The run ends normally, in a value that satisfies `P`.
abbrev pub Returns {ℓ κ} : {A : Type ℓ} → Outcome A → (A → Type κ) → Type (ℓ ⊔ κ)
Returns {A} r P = (a : A) × (r ≡ ok a) × P a

pub Outcome-cases {ℓ} :
    {A : Type ℓ} (r : Outcome A) → ((a : A) × (r ≡ ok a)) ⊎ ((r ≡ panic) ⊎ (r ≡ out_of_fuel))
Outcome-cases (ok a) = inl (a, refl)
Outcome-cases panic = inr (inl refl)
Outcome-cases out_of_fuel = inr (inr refl)

-- A run ends in one value.
pub Returns-both {ℓ κ μ} :
    {A : Type ℓ} (r : Outcome A) (P : A → Type κ) (Q : A → Type μ)
    → Returns r P
    → Returns r Q
    → Returns r (λ a. P a × Q a)
Returns-both r P Q (a, run, p) (b, run', q) =
    let same : b ≡ a = let both : ok b ≡ ok a = sym run' ∙ run in cc in
    (a, run, (p, subst Q same q))
