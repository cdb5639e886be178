-- ===== src/Poly/Moved/Tests.antt =====
-- A rectangle with a hole, moved, over the whole numbers of Float/Grid.antt.
use geometry.Prelude.{refl, some, [], ◌∷◌, arith}
use geometry.Prelude.Run.{Returns}
use geometry.Float.Grid.{Grid, fin, pos, grid_float, Grid-IsOrdered}
use geometry.Segment.{box}
use geometry.Rect.{raw_points}
use geometry.Ring.{Ring, of_series, of_rect}
use geometry.Poly.{Poly, poly_move}
use geometry.Poly.Moved.{poly_move-AreMoved, IsMovable, IsMovedPoly}
use geometry.Line.Same.Tests.{at}
use geometry.Poly.Same.Tests.{hole_indexed}

abbrev frame : Ring Grid
frame = of_rect (box (at 0 0) (at 6 6))

abbrev window : Poly Grid
window = record { exterior = some frame; holes = of_series hole_indexed ∷ [] }

frame-IsMovable : IsMovable (fin (pos 1)) (fin (pos 2)) frame
unfolding raw_points
frame-IsMovable = record { numeric = ground arith; moved = ground arith }

poly_move-AreMoved_example :
    Returns
      (IsMovedPoly Grid-IsOrdered (fin (pos 1)) (fin (pos 2)) window frame)
      (poly_move (some window) (fin (pos 1)) (fin (pos 2)))
poly_move-AreMoved_example =
    poly_move-AreMoved Grid-IsOrdered (fin (pos 1)) (fin (pos 2)) window frame refl frame-IsMovable
      (record { numeric = ground arith; moved = ground arith }, _)
