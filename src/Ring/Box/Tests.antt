-- ===== src/Ring/Box/Tests.antt =====
-- A point on the edge of a rectangle and one inside it, over the whole numbers of Float/Grid.antt.
use geometry.Prelude.{◌≡◌, refl, true, arith}
use geometry.Prelude.Run.{Returns}
use geometry.Float.Grid.{Grid, grid_float, Grid-IsOrdered, Grid-IsExtended}
use geometry.Segment.{Rect, box}
use geometry.Rect.{contains_point}
use geometry.Ring.{of_rect}
use geometry.Ring.Points.{ring_contains_point}
use geometry.Ring.Box.{ring_contains_point-rect}
use geometry.Line.Same.Tests.{at, Grid-IsRising}

abbrev frame : Rect Grid
frame = box (at 0 0) (at 6 4)

ring_contains_point-rect_example :
    Returns
      (λ t. t.hit ≡ contains_point frame (at 3 4))
      (ring_contains_point (of_rect frame) (at 3 4) true)
ring_contains_point-rect_example =
    ring_contains_point-rect Grid-IsOrdered Grid-IsExtended Grid-IsRising frame (at 3 4)
      (ground arith) (ground arith) refl refl true
