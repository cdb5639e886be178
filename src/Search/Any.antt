-- ===== src/Search/Any.antt =====
-- Searches that end at the first segment that passes a test.
use geometry.Prelude.{ℕ, ◌<◌, ◌≡◌, refl, Bool, true, false, not, List, [], ◌∷◌, inl, inr, arith}
use geometry.Prelude.Tests.{◌==◌, if◌then◌else◌, Bool-cases}
use geometry.Prelude.Lists.{length, keep}
use geometry.Prelude.Counts.{count, keep-SameItems, SameItems}
use geometry.Prelude.Removal.{length-SameItems}
use geometry.Prelude.Run.{Run, ok}
use geometry.Segment.{Segment}
use geometry.Search.{Iter, each}

-- Some index passes.
abbrev pub any : (ℕ → Bool) → List ℕ → Bool
any hit is = not (length (keep hit is) == 0)

pub any-SameItems : (hit : ℕ → Bool) (is js : List ℕ) → SameItems is js → any hit is ≡ any hit js
any-SameItems hit is js same = rw (length-SameItems _ _ (keep-SameItems hit is js same)) refl

-- what such a search returns
abbrev pub found : Bool → Bool → Bool × Bool
found hit before = if hit then (true, false) else (before, true)

module _ {ℓ} {F : Type ℓ} (at : ℕ → Run (Segment F)) (iter : Iter F Bool) (hit : ℕ → Bool) where
  -- The segment exists, and the callback tests it.
  abbrev pub IsTested : ℕ → Type ℓ
  IsTested i = (g : Segment F) × (at i ≡ ok g) × ((s : Bool) → iter s g i ≡ ok (found (hit i) s))

  pub each-any :
      (is : List ℕ) (s : Bool)
      → ((i : ℕ) → 0 < count i is → IsTested i)
      → each at iter is s ≡ ok (found (any hit is) s)
  unfolding each
  each-any [] s known = refl
  each-any (i ∷ is) s known =
      let (g, here, tested) = known i (ground arith) in
      elim (Bool-cases (hit i)) [
        | inl passed ↦ rw (here, tested s, passed) (ground arith)
        | inr failed ↦ rw (here, tested s, failed) (each-any is s λ j h. known j (omega arith))
      ]
