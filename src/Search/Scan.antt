-- ===== src/Search/Scan.antt =====
-- The linear scan meets its specification.
use mathlib.Core.Path.{fun_ext}
use geometry.Prelude.{ℕ, zero, suc, ◌+◌, ◌<◌, ◌≡◌, refl, true, false, inl, inr, arith}
use geometry.Prelude.Tests.{Bool-cases}
use geometry.Prelude.Lists.{keep}
use geometry.Prelude.Counts.{range_from}
use geometry.Prelude.Run.{Run, ok}
use geometry.Float.{Float}
use geometry.Segment.{Segment, Rect, rect}
use geometry.Rect.{intersects_rect}
use geometry.Search.{Iter, each, is_hit, scan}

-- Where each of the segments up to i + n exists, a scan of n of them from i on runs the callback
-- over those whose rectangles meet the target, in their order.
pub scan-each {ℓ κ} :
    {F : Type ℓ} ⦃fl : Float F⦄ {S : Type κ} (at : ℕ → Run (Segment F)) (target : Rect F)
    (iter : Iter F S) (n i : ℕ) (s : S)
    → ((j : ℕ) → j < i + n → (g : Segment F) × (at j ≡ ok g))
    → scan at target iter n i s ≡ each at iter (keep (is_hit at target) (range_from i n)) s
unfolding scan each
scan-each at target iter zero i s ready = refl
scan-each {S} at target iter (suc n) i s ready =
    let (g, e) = ready i (omega arith) in
    let rest = λ (t : S). scan-each at target iter n (i + 1) t (λ j h. ready j (omega arith)) in
    elim (Bool-cases (intersects_rect (rect g) target)) [
      | inl hit ↦
          let listed : is_hit at target i ≡ true = rw e hit in rw (listed, e, hit, fun_ext rest)
      | inr miss ↦
          let listed : is_hit at target i ≡ false = rw e miss in rw (listed, e, miss) (rest s)
    ]
