-- ===== src/Geometry/Box/Tests.antt =====
-- A polygon with a hole in a rectangle, over the whole numbers of Float/Grid.antt.
use geometry.Prelude.{◌≡◌, refl, true, none, some, [], ◌∷◌, arith}
use geometry.Float.Grid.{Grid, grid_float, Grid-IsOrdered, Grid-IsExtended}
use geometry.Segment.{Rect, box}
use geometry.Ring.{of_series}
use geometry.Ring.Same.Tests.{arrow_points, arrow, make_series-arrow}
use geometry.Poly.{rect_poly}
use geometry.Poly.Same.Tests.{hole}
use geometry.Geometry.{Geometry, of_rect, of_poly}
use geometry.Geometry.Box.{contains, IsMade, sound_poly, contains-rect_poly}
use geometry.Line.Same.Tests.{at, Grid-IsRising}

abbrev frame : Rect Grid
frame = box (at 0 0) (at 6 8)

abbrev quiver : Geometry Grid
quiver = of_poly (some (record { exterior = some (of_series arrow); holes = of_series hole ∷ [] }))

arrow-IsMade : IsMade arrow
arrow-IsMade = record {
  points = arrow_points;
  closed = true;
  opts = none;
  numeric = ground arith;
  made = make_series-arrow;
}

contains-rect_poly_example :
    contains 0 (of_poly (rect_poly frame)) quiver ≡ contains 0 (of_rect frame) quiver
contains-rect_poly_example =
    contains-rect_poly Grid-IsOrdered Grid-IsExtended Grid-IsRising frame
      ((refl, refl), (refl, refl)) refl refl 0 quiver
      (sound_poly arrow (of_series hole ∷ []) arrow-IsMade)
