-- ===== src/Ring/Same/Tests.antt =====
-- Concrete runs of rings with an index and without, over the whole numbers of Float/Grid.antt.
use geometry.Prelude.{◌≡◌, refl, true, false, none, some, List, [], ◌∷◌, arith}
use geometry.Prelude.Sort.{sort_ints}
use geometry.Prelude.Agree.{Agree}
use geometry.Prelude.Run.{ok, Returns}
use geometry.Float.Grid.{Grid, grid_float, Grid-IsOrdered}
use geometry.Point.{Point}
use geometry.Segment.{seg, box, rect}
use geometry.Series.{BaseSeries, quad_tree, num_segments, segment_at}
use geometry.Series.Drawn.{IsDrawn}
use geometry.Series.Process.{process_points, pass_from, visit}
use geometry.Varint.{append_uvarint, put_uvarint}
use geometry.QTree.{insert}
use geometry.QTree.Compress.{compress, append_items}
use geometry.Index.{make_series, build_index, insert_segments, set_compressed, put_uint32}
use geometry.Ring.{of_series}
use geometry.Ring.Points.{ring_contains_point}
use geometry.Ring.Segments.{ring_contains_segment}
use geometry.Ring.Same.{IsRing, ring_contains_point-same, ring_contains_segment-same}
use geometry.Line.Same.Tests.{at, always, Grid-IsRising}

-- a ring that bends inwards at (2, 1)
abbrev pub arrow_points : List (Point Grid)
arrow_points = at 0 0 ∷ at 2 1 ∷ at 4 0 ∷ at 2 6 ∷ []

abbrev pub arrow : BaseSeries Grid
arrow = record {
  closed = true;
  clockwise = false;
  convex = false;
  index_kind = 0;
  index = none;
  rect = box (at 0 0) (at 4 6);
  points = arrow_points;
}

abbrev pub arrow_indexed : BaseSeries Grid
arrow_indexed = record arrow {
  index_kind = quad_tree;
  index = some (1 ∷ 11 ∷ 0 ∷ 0 ∷ 0 ∷ 4 ∷ 0 ∷ 1 ∷ 1 ∷ 1 ∷ 0 ∷ []);
}

pub make_series-arrow : make_series arrow_points true none ≡ ok arrow
unfolding make_series process_points pass_from visit
make_series-arrow = refl

pub make_series-indexed : make_series arrow_points true always ≡ ok arrow_indexed
unfolding make_series process_points pass_from visit build_index num_segments segment_at
    insert_segments insert rect set_compressed put_uint32 compress append_items append_uvarint
    put_uvarint sort_ints
make_series-indexed = refl

pub arrow-IsDrawn : IsDrawn arrow_points
arrow-IsDrawn = record { numeric = ground arith; low = ground arith; short = omega arith }

pub arrow-IsRing : IsRing arrow_points arrow
arrow-IsRing = record { opts = none; made = make_series-arrow; small = omega arith }

pub indexed-IsRing : IsRing arrow_points arrow_indexed
indexed-IsRing = record { opts = always; made = make_series-indexed; small = omega arith }

ring_contains_point-same_example :
    Returns
      (λ r.
        Returns
          (λ r'. r'.hit ≡ r.hit)
          (ring_contains_point (of_series arrow_indexed) (at 2 2) false))
      (ring_contains_point (of_series arrow) (at 2 2) false)
ring_contains_point-same_example =
    ring_contains_point-same Grid-IsOrdered Grid-IsRising arrow_points arrow-IsDrawn arrow
      arrow_indexed arrow-IsRing indexed-IsRing (at 2 2) false

ring_contains_segment-same_example :
    Agree
      (ring_contains_segment (of_series arrow) (seg (at 2 2) (at 2 4)) false)
      (ring_contains_segment (of_series arrow_indexed) (seg (at 2 2) (at 2 4)) false)
ring_contains_segment-same_example =
    ring_contains_segment-same Grid-IsOrdered Grid-IsRising arrow_points arrow-IsDrawn arrow
      arrow_indexed arrow-IsRing indexed-IsRing (seg (at 2 2) (at 2 4)) refl refl
