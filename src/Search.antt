-- ===== src/Search.antt =====
-- Searches report segments to a callback, `iter func(seg Segment, idx int) bool`. The variables
-- that a callback changes are a state that it takes and returns; it may panic.
pub mod Scan
pub mod Each
pub mod Any
use geometry.Prelude.{ℕ, zero, suc, ◌+◌, Bool, true, false, List, [], ◌∷◌}
use geometry.Prelude.Tests.{if◌then◌else◌}
use geometry.Prelude.Run.{Run, ok, panic, out_of_fuel, ◌>>=◌}
use geometry.Float.{Float}
use geometry.Segment.{Segment, Rect, rect}
use geometry.Rect.{intersects_rect}

abbrev pub Iter {ℓ κ} : Type ℓ → Type κ → Type (ℓ ⊔ κ)
Iter F S = S → Segment F → ℕ → Run (S × Bool)

-- the rest of a search after a call of the callback, which `false` ends
abbrev pub go_on {κ} : {S : Type κ} → Run (S × Bool) → (S → Run (S × Bool)) → Run (S × Bool)
go_on call rest = do (s, more) ← call; if more then rest s else ok (s, false)

module _ {ℓ κ} {F : Type ℓ} {S : Type κ} where
  -- The specification of a search: the callback takes the segments of these indices in turn, until
  -- it answers `false`.
  unfoldable pub each : (ℕ → Run (Segment F)) → Iter F S → List ℕ → S → Run (S × Bool)
  each at iter [] s = ok (s, true)
  each at iter (i ∷ is) s = do g ← at i; go_on (iter s g i) (each at iter is)

module _ {ℓ} {F : Type ℓ} ⦃fl : Float F⦄ where
  -- The segment exists, and its rectangle meets the target.
  abbrev pub meets : Rect F → Run (Segment F) → Bool
  meets target (ok g) = intersects_rect (rect g) target
  meets target panic = false
  meets target out_of_fuel = false

  abbrev pub is_hit : (ℕ → Run (Segment F)) → Rect F → ℕ → Bool
  is_hit at target i = meets target (at i)

  module _ {κ} {S : Type κ} where
    -- for ; n rounds from i; i++ { if seg.Rect().IntersectsRect(target) { if !iter(seg, i) { … } } }
    unfoldable pub scan : (ℕ → Run (Segment F)) → Rect F → Iter F S → ℕ → ℕ → S → Run (S × Bool)
    scan at target iter zero i s = ok (s, true)
    scan at target iter (suc n) i s = do
      g ← at i
      go_on (if intersects_rect (rect g) target then iter s g i else ok (s, true))
          (scan at target iter n (i + 1))
