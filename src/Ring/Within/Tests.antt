-- ===== src/Ring/Within/Tests.antt =====
-- A concrete run of a ring within a ring, over the whole numbers of Float/Grid.antt.
use geometry.Prelude.{false}
use geometry.Prelude.Agree.{Agree}
use geometry.Float.Grid.{grid_float, Grid-IsOrdered}
use geometry.Ring.{of_series}
use geometry.Ring.Rings.{ring_contains_ring}
use geometry.Ring.Same.Tests.{
  arrow_points, arrow, arrow_indexed, arrow-IsDrawn, arrow-IsRing, indexed-IsRing,
}
use geometry.Ring.Within.{ring_contains_ring-same}
use geometry.Poly.Same.Tests.{
  hole_points, hole, hole_indexed, hole-IsDrawn, hole-IsRing, hole_indexed-IsRing,
}
use geometry.Line.Same.Tests.{Grid-IsRising}

ring_contains_ring-same_example :
    Agree
      (ring_contains_ring (of_series arrow) (of_series hole) false)
      (ring_contains_ring (of_series arrow_indexed) (of_series hole_indexed) false)
ring_contains_ring-same_example =
    ring_contains_ring-same Grid-IsOrdered Grid-IsRising arrow_points arrow-IsDrawn arrow
      arrow_indexed arrow-IsRing indexed-IsRing hole_points hole hole_indexed hole-IsDrawn
      hole-IsRing hole_indexed-IsRing
