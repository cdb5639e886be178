-- ===== src/Poly/Same/Tests.antt =====
-- Concrete runs of polygons, over the whole numbers of Float/Grid.antt.
use geometry.Prelude.{◌≡◌, refl, true, false, none, some, List, [], ◌∷◌, arith}
use geometry.Prelude.Sort.{sort_ints}
use geometry.Prelude.Agree.{Agree}
use geometry.Prelude.Run.{ok}
use geometry.Float.Grid.{Grid, grid_float, Grid-IsOrdered}
use geometry.Point.{Point}
use geometry.Segment.{box, rect}
use geometry.Series.{BaseSeries, quad_tree, num_segments, segment_at}
use geometry.Series.Drawn.{IsDrawn}
use geometry.Series.Process.{process_points, pass_from, visit}
use geometry.Varint.{append_uvarint, put_uvarint}
use geometry.QTree.{insert}
use geometry.QTree.Compress.{compress, append_items}
use geometry.Index.{make_series, build_index, insert_segments, set_compressed, put_uint32}
use geometry.Ring.{of_series, new_ring}
use geometry.Ring.Same.{IsRing}
use geometry.Ring.Same.Tests.{
  arrow_points, arrow, arrow_indexed, arrow-IsDrawn, arrow-IsRing, indexed-IsRing,
}
use geometry.Line.Same.Tests.{at, always, Grid-IsRising}
use geometry.Poly.{Poly, new_poly, contains_point_ex}
use geometry.Poly.Same.{IsPoly, contains_point_ex-same}

-- a hole in the arrow
abbrev pub hole_points : List (Point Grid)
hole_points = at 1 2 ∷ at 3 2 ∷ at 2 3 ∷ []

abbrev pub hole : BaseSeries Grid
hole = record {
  closed = true;
  clockwise = false;
  convex = true;
  index_kind = 0;
  index = none;
  rect = box (at 1 2) (at 3 3);
  points = hole_points;
}

abbrev pub hole_indexed : BaseSeries Grid
hole_indexed = record hole {
  index_kind = quad_tree;
  index = some (1 ∷ 10 ∷ 0 ∷ 0 ∷ 0 ∷ 3 ∷ 0 ∷ 1 ∷ 1 ∷ 0 ∷ []);
}

make_series-hole : make_series hole_points true none ≡ ok hole
unfolding make_series process_points pass_from visit
make_series-hole = refl

make_series-hole_indexed : make_series hole_points true always ≡ ok hole_indexed
unfolding make_series process_points pass_from visit build_index num_segments segment_at
    insert_segments insert rect set_compressed put_uint32 compress append_items append_uvarint
    put_uvarint sort_ints
make_series-hole_indexed = refl

pub hole-IsDrawn : IsDrawn hole_points
hole-IsDrawn = record { numeric = ground arith; low = ground arith; short = omega arith }

pub hole-IsRing : IsRing hole_points hole
hole-IsRing = record { opts = none; made = make_series-hole; small = omega arith }

pub hole_indexed-IsRing : IsRing hole_points hole_indexed
hole_indexed-IsRing = record { opts = always; made = make_series-hole_indexed; small = omega arith }

abbrev holed : Poly Grid
holed = record { exterior = some (of_series arrow); holes = of_series hole ∷ [] }

abbrev holed_indexed : Poly Grid
holed_indexed = record {
  exterior = some (of_series arrow_indexed);
  holes = of_series hole_indexed ∷ [];
}

-- It is what NewPoly returns.
new_poly-holed : new_poly arrow_points (hole_points ∷ []) none ≡ ok holed
unfolding new_poly new_ring make_series process_points pass_from visit
new_poly-holed = refl

holed-IsPoly : IsPoly arrow_points (hole_points ∷ []) holed
holed-IsPoly = record {
  ring = of_series arrow;
  outer = refl;
  is_ring = (arrow-IsDrawn, arrow-IsRing);
  are_rings = ((hole-IsDrawn, hole-IsRing), tt);
}

holed_indexed-IsPoly : IsPoly arrow_points (hole_points ∷ []) holed_indexed
holed_indexed-IsPoly = record {
  ring = of_series arrow_indexed;
  outer = refl;
  is_ring = (arrow-IsDrawn, indexed-IsRing);
  are_rings = ((hole-IsDrawn, hole_indexed-IsRing), tt);
}

contains_point_ex-same_example :
    Agree
      (contains_point_ex (some holed) (at 2 2))
      (contains_point_ex (some holed_indexed) (at 2 2))
contains_point_ex-same_example =
    contains_point_ex-same Grid-IsOrdered Grid-IsRising (at 2 2) arrow_points (hole_points ∷ [])
      holed holed_indexed holed-IsPoly holed_indexed-IsPoly
