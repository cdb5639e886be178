-- ===== src/Prelude/Sort.antt =====
-- sort.Ints of Go's standard library: the same numbers in ascending order.
use geometry.Prelude.Tests.{Bool-cases, leb, ◌==◌, if◌then◌else◌}
use geometry.Prelude.Lists.{All}
use geometry.Prelude.Counts.{count, SameItems}
use Prim.Native.Nat.{ℕ, ◌+◌, ◌≤◌}
use mathlib.Core.Path.{◌≡◌, refl}
use mathlib.Core.Logic.{inl, inr}
use mathlib.Core.List.{List, [], ◌∷◌}
use native.Mathlib.Omega.{arith}

insert_sorted : ℕ → List ℕ → List ℕ
insert_sorted a [] = a ∷ []
insert_sorted a (x ∷ xs) = if leb a x then a ∷ (x ∷ xs) else x ∷ insert_sorted a xs

unfoldable pub sort_ints : List ℕ → List ℕ
unfolding insert_sorted
sort_ints [] = []
sort_ints (x ∷ xs) = insert_sorted x (sort_ints xs)

-- The list ascends, and starts no lower than this.
abbrev pub Ascends : ℕ → List ℕ → Type 0
Ascends lo [] = Unit {0}
Ascends lo (x ∷ xs) = (lo ≤ x) × Ascends x xs

insert_sorted-Ascends :
    (a lo : ℕ) (xs : List ℕ) → lo ≤ a → Ascends lo xs → Ascends lo (insert_sorted a xs)
unfolding insert_sorted
insert_sorted-Ascends a lo [] h k = (h, tt)
insert_sorted-Ascends a lo (x ∷ xs) h (p, ps) = ground (arith, insert_sorted-Ascends a x xs)

pub sort_ints-Ascends : (xs : List ℕ) → Ascends 0 (sort_ints xs)
unfolding sort_ints
sort_ints-Ascends [] = tt
sort_ints-Ascends (x ∷ xs) =
    insert_sorted-Ascends x 0 (sort_ints xs) (omega arith) (sort_ints-Ascends xs)

insert_sorted-count :
    (a x : ℕ) (xs : List ℕ) → count x (insert_sorted a xs) ≡ (if x == a then 1 else 0) + count x xs
unfolding insert_sorted
insert_sorted-count a x [] = refl
insert_sorted-count a x (y ∷ xs) = ground (arith, insert_sorted-count a x xs)

pub sort_ints-SameItems : (xs : List ℕ) → SameItems (sort_ints xs) xs
unfolding sort_ints
sort_ints-SameItems [] a = refl
sort_ints-SameItems (x ∷ xs) a =
    omega (arith, insert_sorted-count x a (sort_ints xs), sort_ints-SameItems xs a)

insert_sorted-All {κ} :
    (P : ℕ → Type κ) (a : ℕ) (xs : List ℕ) → P a → All P xs → All P (insert_sorted a xs)
unfolding insert_sorted
insert_sorted-All P a [] p ps = (p, tt)
insert_sorted-All P a (x ∷ xs) p (q, ps) = elim (Bool-cases (leb a x)) [
  | inl before ↦ rw before (p, (q, ps))
  | inr after ↦ rw after (q, insert_sorted-All P a xs p ps)
]

pub sort_ints-All {κ} : (P : ℕ → Type κ) (xs : List ℕ) → All P xs → All P (sort_ints xs)
unfolding sort_ints
sort_ints-All P [] ps = tt
sort_ints-All P (x ∷ xs) (p, ps) = insert_sorted-All P x (sort_ints xs) p (sort_ints-All P xs ps)
