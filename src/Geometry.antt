-- ===== src/Geometry.antt =====
-- geometry.go: the interface that points, rectangles, lines and polygons conform to. A value of it
-- holds one of the four; a line or a polygon is a pointer, which may be nil.
pub mod Box
use geometry.Prelude.{ℕ, Bool, Option, none, some}
use geometry.Prelude.Run.{Run, ok, panic}
use geometry.Float.{Float}
use geometry.Point
use geometry.Point.{Point}
use geometry.Segment.{Rect}
use geometry.Rect
use geometry.Rect.{point_rect, point_contains_rect, point_intersects_rect}
use geometry.Series
use geometry.Series.{BaseSeries}
use geometry.Line.{
  point_contains_line, point_intersects_line, rect_contains_line, rect_intersects_line,
  line_contains_point, line_intersects_point, line_intersects_rect, line_contains_line,
  line_intersects_line,
}
use geometry.Poly.{
  Poly, poly_rect, poly_empty, point_contains_poly, point_intersects_poly, rect_contains_poly,
  rect_intersects_poly, line_contains_rect, line_contains_poly, line_intersects_poly,
  poly_contains_point, poly_intersects_point, poly_contains_rect, poly_intersects_rect,
  poly_contains_line, poly_intersects_line, poly_contains_poly, poly_intersects_poly,
}

pub data Geometry {ℓ} (F : Type ℓ) : Type ℓ where
  of_point : Point F → Geometry F
  of_rect : Rect F → Geometry F
  of_line : Option (BaseSeries F) → Geometry F
  of_poly : Option (Poly F) → Geometry F

-- What a line takes over from its series is a panic on a nil line.
abbrev pub of_series {ℓ κ} :
    {F : Type ℓ} {A : Type κ} → Option (BaseSeries F) → (BaseSeries F → A) → Run A
of_series none f = panic
of_series (some s) f = ok (f s)

module _ {ℓ} {F : Type ℓ} ⦃fl : Float F⦄ where
  unfoldable pub rect : Geometry F → Run (Rect F)
  rect (of_point p) = ok (point_rect p)
  rect (of_rect r) = ok r
  rect (of_line l) = of_series l λ s. s.rect
  rect (of_poly p) = ok (poly_rect p)

  unfoldable pub empty : Geometry F → Run Bool
  empty (of_point p) = ok (Point.empty p)
  empty (of_rect r) = ok (Rect.empty r)
  empty (of_line l) = of_series l Series.empty
  empty (of_poly p) = ok (poly_empty p)

  unfoldable pub contains_point : Geometry F → Point F → Run Bool
  contains_point (of_point p) q = ok (Point.contains_point p q)
  contains_point (of_rect r) q = ok (Rect.contains_point r q)
  contains_point (of_line l) q = line_contains_point l q
  contains_point (of_poly p) q = poly_contains_point p q

  unfoldable pub intersects_point : Geometry F → Point F → Run Bool
  intersects_point (of_point p) q = ok (Point.intersects_point p q)
  intersects_point (of_rect r) q = ok (Rect.intersects_point r q)
  intersects_point (of_line l) q = line_intersects_point l q
  intersects_point (of_poly p) q = poly_intersects_point p q

  -- The fuel is that of Line.ContainsLine.
  unfoldable pub contains_rect : ℕ → Geometry F → Rect F → Run Bool
  contains_rect fuel (of_point p) r = ok (point_contains_rect p r)
  contains_rect fuel (of_rect s) r = ok (Rect.contains_rect s r)
  contains_rect fuel (of_line l) r = line_contains_rect fuel l r
  contains_rect fuel (of_poly p) r = poly_contains_rect p r

  unfoldable pub intersects_rect : Geometry F → Rect F → Run Bool
  intersects_rect (of_point p) r = ok (point_intersects_rect p r)
  intersects_rect (of_rect s) r = ok (Rect.intersects_rect s r)
  intersects_rect (of_line l) r = line_intersects_rect l r
  intersects_rect (of_poly p) r = poly_intersects_rect p r

  unfoldable pub contains_line : ℕ → Geometry F → Option (BaseSeries F) → Run Bool
  contains_line fuel (of_point p) l = point_contains_line p l
  contains_line fuel (of_rect r) l = rect_contains_line r l
  contains_line fuel (of_line k) l = line_contains_line fuel k l
  contains_line fuel (of_poly p) l = poly_contains_line p l

  unfoldable pub intersects_line : Geometry F → Option (BaseSeries F) → Run Bool
  intersects_line (of_point p) l = point_intersects_line p l
  intersects_line (of_rect r) l = rect_intersects_line r l
  intersects_line (of_line k) l = line_intersects_line k l
  intersects_line (of_poly p) l = poly_intersects_line p l

  unfoldable pub contains_poly : ℕ → Geometry F → Option (Poly F) → Run Bool
  contains_poly fuel (of_point p) o = point_contains_poly p o
  contains_poly fuel (of_rect r) o = rect_contains_poly r o
  contains_poly fuel (of_line l) o = line_contains_poly fuel l o
  contains_poly fuel (of_poly p) o = poly_contains_poly p o

  unfoldable pub intersects_poly : Geometry F → Option (Poly F) → Run Bool
  intersects_poly (of_point p) o = point_intersects_poly p o
  intersects_poly (of_rect r) o = rect_intersects_poly r o
  intersects_poly (of_line l) o = line_intersects_poly l o
  intersects_poly (of_poly p) o = poly_intersects_poly p o
