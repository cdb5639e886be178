-- ===== src/Prelude/Removal.antt =====
-- Lists with the same items are of the same length.
use Prim.Native.Nat.{ℕ, suc, ◌+◌, ◌<◌}
use mathlib.Core.Path.{◌≡◌, refl}
use mathlib.Core.List.{List, [], ◌∷◌}
use native.Mathlib.Omega.{arith}
use geometry.Prelude.Tests.{◌==◌, if◌then◌else◌}
use geometry.Prelude.Lists.{length}
use geometry.Prelude.Counts.{count, SameItems}

-- without the first x
abbrev remove : ℕ → List ℕ → List ℕ
remove x [] = []
remove x (y ∷ ys) = if x == y then ys else y ∷ remove x ys

count-remove :
    (x a : ℕ) (ys : List ℕ)
    → 0 < count x ys
    → count a ys ≡ (if a == x then 1 else 0) + count a (remove x ys)
count-remove x a [] h = absurd (omega arith)
count-remove x a (y ∷ ys) h = ground (arith, count-remove x a ys)

length-remove : (x : ℕ) (ys : List ℕ) → 0 < count x ys → length ys ≡ suc (length (remove x ys))
length-remove x [] h = absurd (omega arith)
length-remove x (y ∷ ys) h = ground (arith, length-remove x ys)

pub length-SameItems : (xs ys : List ℕ) → SameItems xs ys → length xs ≡ length ys
length-SameItems [] [] h = refl
length-SameItems [] (y ∷ ys) h = absurd (ground (arith, h y))
length-SameItems (x ∷ xs) ys h =
    let here : 0 < count x ys = ground (arith, h x) in
    let rest : SameItems xs (remove x ys) = λ a. omega (arith, h a, count-remove x a ys here) in
    omega (arith, length-SameItems xs (remove x ys) rest, length-remove x ys here)
