-- ===== src/Ring/Seen.antt =====
-- Which segments a search along the line of the ray reports.
use geometry.Prelude.{◌≡◌, inl, inr, arith}
use geometry.Prelude.Tests.{Bool-cases}
use geometry.Float.{Float, less}
use geometry.Float.Laws.{IsOrdered, IsExtended, is_between}
use geometry.Float.Between.{spans}
use geometry.Point.{Point, IsNumeric}
use geometry.Segment.{seg, rect}
use geometry.Rect.{intersects_rect}
use geometry.Ring.Points.{ray_line}

module _ {ℓ} {F : Type ℓ} ⦃fl : Float F⦄ (laws : IsOrdered F) (more : IsExtended F) where
  -- A segment meets the line of the ray where it reaches over the height of the point.
  pub seen :
      (p a b : Point F)
      → IsNumeric p
      → IsNumeric a
      → IsNumeric b
      → intersects_rect (rect (seg a b)) (ray_line p) ≡ is_between p.y a.y b.y
  unfolding intersects_rect rect
  seen p a b numeric na nb =
      let high = more.inf_greatest in
      let low = more.neg_inf_least in
      let span = spans laws p.y a.y b.y numeric.1 na.1 nb.1 in
      elim (Bool-cases (less b.x a.x)) [
        | inl flipped ↦ elim (Bool-cases (less b.y a.y)) [
          | inl falls ↦ rw (flipped, falls, high b.x, low a.x) (ground (arith, span))
          | inr rises ↦ rw (flipped, rises, high b.x, low a.x) (ground (arith, span))
        ]
        | inr ordered ↦ elim (Bool-cases (less b.y a.y)) [
          | inl falls ↦ rw (ordered, falls, high a.x, low b.x) (ground (arith, span))
          | inr rises ↦ rw (ordered, rises, high a.x, low b.x) (ground (arith, span))
        ]
      ]
