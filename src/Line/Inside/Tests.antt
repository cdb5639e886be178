-- ===== src/Line/Inside/Tests.antt =====
-- A rectangle and a line, over the whole numbers of Float/Grid.antt.
use geometry.Prelude.{◌≡◌, refl, not, ◌&&◌, none, some, arith}
use geometry.Prelude.Tests.{ltb}
use geometry.Prelude.Lists.{length}
use geometry.Prelude.Run.{ok}
use geometry.Float.Grid.{grid_float, Grid-IsOrdered}
use geometry.Segment.{box}
use geometry.Line.{rect_contains_line}
use geometry.Line.Inside.{contains_all, rect_contains_line-All}
use geometry.Line.Same.Tests.{at, bend, bend_points, new_line-bend}

rect_contains_line-All_example :
    rect_contains_line (box (at 0 0) (at 4 5)) (some bend)
    ≡ ok (not (ltb (length bend_points) 2) && contains_all (box (at 0 0) (at 4 5)) bend_points)
rect_contains_line-All_example =
    rect_contains_line-All Grid-IsOrdered bend_points none bend (box (at 0 0) (at 4 5))
      (ground arith) new_line-bend ((refl, refl), (refl, refl))
