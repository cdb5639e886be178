-- ===== src/Prelude/Counts.antt =====
-- Multisets of numbers by counting, ranges, and what `sort.Ints` leaves.
use Prim.Native.Nat.{ℕ, zero, suc, ◌+◌, ◌<◌, ◌≤◌}
use mathlib.Core.Path.{◌≡◌, refl}
use mathlib.Core.Bool.{Bool, false}
use mathlib.Core.Logic.{inl, inr}
use mathlib.Core.List.{List, [], ◌∷◌, ◌++◌}
use native.Mathlib.Omega.{arith}
use geometry.Prelude.Tests.{◌==◌, if◌then◌else◌, Bool-cases}
use geometry.Prelude.Lists.{keep}

abbrev pub count : ℕ → List ℕ → ℕ
count i [] = 0
count i (j ∷ js) = (if i == j then 1 else 0) + count i js

pub count-append :
    (i : ℕ) (front back : List ℕ) → count i (front ++ back) ≡ count i front + count i back
count-append i [] back = omega arith
count-append i (j ∷ front) back = omega (arith, count-append i front back)

-- The two lists hold the same numbers, each as often.
abbrev pub SameItems : List ℕ → List ℕ → Type 0
SameItems xs ys = (a : ℕ) → count a xs ≡ count a ys

pub count-keep :
    (p : ℕ → Bool) (a : ℕ) (xs : List ℕ) → count a (keep p xs) ≡ (if p a then count a xs else 0)
count-keep p a [] = ground arith
count-keep p a (x ∷ xs) = ground (arith, count-keep p a xs)

pub keep-SameItems :
    (p : ℕ → Bool) (xs ys : List ℕ) → SameItems xs ys → SameItems (keep p xs) (keep p ys)
keep-SameItems p xs ys h a = ground (arith, count-keep p a xs, count-keep p a ys, h a)

pub keep-append : (p : ℕ → Bool) (xs ys : List ℕ) → keep p (xs ++ ys) ≡ keep p xs ++ keep p ys
keep-append p [] ys = refl
keep-append p (x ∷ xs) ys = ground (arith, keep-append p xs ys)

-- lo, lo + 1, …, n of them.
abbrev pub range_from : ℕ → ℕ → List ℕ
range_from lo zero = []
range_from lo (suc n) = lo ∷ range_from (lo + 1) n

pub keep_none :
    (p : ℕ → Bool) (xs : List ℕ) → ((i : ℕ) → 0 < count i xs → p i ≡ false) → keep p xs ≡ []
keep_none p [] h = refl
keep_none p (x ∷ xs) h = rw (h x (ground arith)) (keep_none p xs λ i k. h i (omega arith))

pub range_from_bounds : (x lo n : ℕ) → 0 < count x (range_from lo n) → (lo ≤ x) × (x < lo + n)
range_from_bounds x lo zero h = absurd (omega arith)
range_from_bounds x lo (suc n) h = ground (arith, range_from_bounds x (lo + 1) n)

pub range_from-count : (x lo n : ℕ) → lo ≤ x → x < lo + n → 0 < count x (range_from lo n)
range_from-count x lo zero le lt = absurd (omega arith)
range_from-count x lo (suc n) le lt = elim (Bool-cases (x == lo)) [
  | inl e ↦ ground arith
  | inr d ↦ ground (arith, range_from-count x (lo + 1) n)
]
