-- ===== src/Rect/Order.antt =====
-- How the tests between rectangles bear on each other.
use geometry.Prelude.{◌≡◌, true, ◌&&◌, ◌||◌, arith}
use geometry.Prelude.Tests.{if◌then◌else◌}
use geometry.Float.{Float, less, IsNumber}
use geometry.Float.Laws.{IsOrdered, less_trans}
use geometry.Point.{IsNumeric}
use geometry.Segment.{Rect}
use geometry.Rect.{contains_rect, intersects_rect, union}

-- No coordinate of the rectangle is NaN.
abbrev pub IsNumericRect {ℓ} : {F : Type ℓ} ⦃fl : Float F⦄ → Rect F → Type 0
IsNumericRect r = IsNumeric r.min × IsNumeric r.max

module _ {ℓ} {F : Type ℓ} ⦃fl : Float F⦄ (laws : IsOrdered F) where
  open laws use {less_asymm, less_cotrans, less_number}

  -- What meets a rectangle without NaN meets every rectangle that contains it.
  pub contains_rect-intersects_rect :
      (b r t : Rect F)
      → IsNumericRect r
      → contains_rect b r ≡ true
      → intersects_rect r t ≡ true
      → intersects_rect b t ≡ true
  unfolding contains_rect intersects_rect
  contains_rect-intersects_rect b r t n h k = ground (
    arith,
    less_cotrans t.max.y r.min.y b.min.y n.0.1,
    less_cotrans b.max.y r.max.y t.min.y n.1.1,
    less_cotrans t.max.x r.min.x b.min.x n.0.0,
    less_cotrans b.max.x r.max.x t.min.x n.1.0,
  )

  -- A rectangle that contains one without NaN contains every rectangle that this contains.
  contains_rect_trans :
      (a b c : Rect F)
      → IsNumericRect b
      → contains_rect a b ≡ true
      → contains_rect b c ≡ true
      → contains_rect a c ≡ true
  unfolding contains_rect
  contains_rect_trans a b c n h k = ground (
    arith,
    less_cotrans c.min.x b.min.x a.min.x n.0.0,
    less_cotrans c.min.y b.min.y a.min.y n.0.1,
    less_cotrans a.max.x b.max.x c.max.x n.1.0,
    less_cotrans a.max.y b.max.y c.max.y n.1.1,
  )

  -- Union contains both rectangles.
  pub union-contains_rect :
      (r o : Rect F) → (contains_rect (union r o) r ≡ true) × (contains_rect (union r o) o ≡ true)
  unfolding contains_rect union
  union-contains_rect r o = ground (
    arith,
    less_asymm r.min.x o.min.x,
    less_asymm r.min.y o.min.y,
    less_asymm o.max.x r.max.x,
    less_asymm o.max.y r.max.y,
    less_asymm r.min.x r.min.x,
    less_asymm r.min.y r.min.y,
    less_asymm r.max.x r.max.x,
    less_asymm r.max.y r.max.y,
    less_asymm o.min.x o.min.x,
    less_asymm o.min.y o.min.y,
    less_asymm o.max.x o.max.x,
    less_asymm o.max.y o.max.y,
  )

  -- On one axis: the lesser bound is below a third just where one of the two is.
  less-lower :
      (a b c : F) → IsNumber a → less (if less b a then b else a) c ≡ (less a c || less b c)
  less-lower a b c h = ground (arith, less_trans laws b a c, less_cotrans b a c h)

  less-upper :
      (a b c : F) → IsNumber a → less c (if less a b then b else a) ≡ (less c a || less c b)
  less-upper a b c h = ground (arith, less_trans laws c a b, less_cotrans c a b h)

  -- A rectangle contains the union of two, the first without NaN, just where it contains both.
  pub contains_rect-union :
      (r o b : Rect F)
      → IsNumericRect r
      → contains_rect b (union r o) ≡ (contains_rect b r && contains_rect b o)
  unfolding contains_rect union
  contains_rect-union r o b n = ground (
    arith,
    less-lower r.min.x o.min.x b.min.x n.0.0,
    less-lower r.min.y o.min.y b.min.y n.0.1,
    less-upper r.max.x o.max.x b.max.x n.1.0,
    less-upper r.max.y o.max.y b.max.y n.1.1,
  )
