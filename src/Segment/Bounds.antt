-- ===== src/Segment/Bounds.antt =====
-- The rectangle of a segment.
use geometry.Prelude.{◌≡◌, true, arith}
use geometry.Float.{Float}
use geometry.Float.Laws.{IsOrdered}
use geometry.Point.{Point, IsNumeric}
use geometry.Segment.{Segment, Rect, rect, seg}
use geometry.Rect.{contains_rect, contains_point}
use geometry.Rect.Order.{IsNumericRect}
use geometry.Series.Process.Bounds.{Encloses}

module _ {ℓ} {F : Type ℓ} ⦃fl : Float F⦄ where
  pub rect-IsNumericRect :
      (a b : Point F) → IsNumeric a → IsNumeric b → IsNumericRect (rect (seg a b))
  unfolding rect
  rect-IsNumericRect a b ha hb = ground arith

  pub Encloses-rect :
      (r : Rect F) (a b : Point F)
      → Encloses r a
      → Encloses r b
      → contains_rect r (rect (seg a b)) ≡ true
  unfolding rect contains_rect
  Encloses-rect r a b ha hb = ground arith

  module _ (laws : IsOrdered F) where
    open laws use {less_asymm, same_of_not_less, same_comm}

    -- The rectangle of a segment without NaN contains both of its ends.
    pub rect-contains_point :
        (s : Segment F)
        → IsNumeric s.a
        → IsNumeric s.b
        → (contains_point (rect s) s.a ≡ true) × (contains_point (rect s) s.b ≡ true)
    unfolding rect contains_point
    rect-contains_point s ha hb = ground (
      arith,
      less_asymm s.b.x s.a.x,
      less_asymm s.b.y s.a.y,
      same_of_not_less s.a.x s.b.x ha.0 hb.0,
      same_of_not_less s.a.y s.b.y ha.1 hb.1,
    )
