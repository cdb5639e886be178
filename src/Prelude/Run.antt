-- ===== src/Prelude/Run.antt =====
-- How a call of the program ends: with a value, in a run-time panic, or (in the model only)
-- with its fuel used up.
use mathlib.Core.Path.{◌≡◌, subst}
use mathlib.Core.Bool.{Bool, true, false}
use mathlib.Core.Option.{Option, none, some}
use geometry.Prelude.Tests.{if◌then◌else◌}

pub data Run {ℓ} (A : Type ℓ) : Type ℓ where
  ok : A → Run A
  panic : Run A
  out_of_fuel : Run A

infixl 5 ◌>>=◌
abbrev pub ◌>>=◌ {ℓ κ} : {A : Type ℓ} {B : Type κ} → Run A → (A → Run B) → Run B
ok a >>= f = f a
panic >>= f = panic
out_of_fuel >>= f = out_of_fuel

-- An index out of range panics.
abbrev pub or_panic {ℓ} : {A : Type ℓ} → Option A → Run A
or_panic (some a) = ok a
or_panic none = panic

-- The call returns a value, and the value satisfies `P`.
abbrev pub Returns {ℓ κ} : {A : Type ℓ} → (A → Type κ) → Run A → Type (ℓ ⊔ κ)
Returns {A} P r = (a : A) × (r ≡ ok a) × P a

-- `x || y` over calls: the second is not made if the first holds
abbrev pub or_else : Run Bool → Run Bool → Run Bool
or_else x y = do r ← x; if r then ok true else y

-- `x && y` over calls
abbrev pub and_then : Run Bool → Run Bool → Run Bool
and_then x y = do r ← x; if r then y else ok false

-- the answer of a call that returns
abbrev pub answer : Run Bool → Bool
answer (ok b) = b
answer panic = false
answer out_of_fuel = false

-- Two facts about the value of one call.
pub Returns-both {ℓ κ μ} :
    {A : Type ℓ} (P : A → Type κ) (Q : A → Type μ) (r : Run A)
    → Returns P r
    → Returns Q r
    → Returns (λ a. P a × Q a) r
Returns-both P Q r (a, run, p) (b, run', q) = let e : b ≡ a = cc in (a, run, (p, subst Q e q))
