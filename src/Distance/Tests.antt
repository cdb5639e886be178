-- ===== src/Distance/Tests.antt =====
-- Concrete runs of DistanceToSeries, over the whole numbers of Float/Grid.antt.
use geometry.Prelude.{ℕ, ◌<◌, ◌≡◌, refl, true, false, none, some, Option, [], ◌∷◌, arith}
use geometry.Prelude.Run.{ok, Returns}
use geometry.Prelude.Sort.{sort_ints}
use geometry.Float.{less, same}
use geometry.Float.Grid.{Grid, nan, grid_float, Grid-IsOrdered}
use geometry.Segment.{seg, box}
use geometry.Series.{BaseSeries, IndexOptions, quad_tree, num_segments, segment_at}
use geometry.Series.Process.{process_points, pass_from, visit}
use geometry.Varint.{append_uvarint, put_uvarint}
use geometry.QTree.Compress.{compress, append_items}
use geometry.QTree.Nearby.Tests.{
  to_segment, to_rect, to_segment-IsNumber, to_rect-IsNumber, to_rect_bound,
}
use geometry.Ring.{of_series}
use geometry.Index.{make_series, build_index, insert_segments, set_compressed, put_uint32}
use geometry.Index.Tests.{at, ring, ring_series, always, make_series-ring}
use geometry.Distance.{distance_to_series}
use geometry.Distance.Least.{
  distance_to_series_least, distance_to_series_empty, distance_to_series-same,
}

ring-segments : num_segments ring_series ≡ ok 14
unfolding num_segments
ring-segments = refl

ring-third : segment_at ring_series 3 ≡ ok (seg (at 12 0) (at 16 0))
unfolding segment_at
ring-third = refl

distance_to_series_least_example :
    Returns
      (λ r.
        (i : ℕ) × (i < 14)
        × (segment_at ring_series i ≡ ok r.nearest)
        × (r.dist ≡ to_segment r.nearest)
        × (less (to_segment (seg (at 12 0) (at 16 0))) r.dist ≡ false))
      (distance_to_series (of_series ring_series) to_rect to_segment)
distance_to_series_least_example =
    distance_to_series_least Grid-IsOrdered to_rect to_segment to_segment-IsNumber to_rect-IsNumber
      to_rect_bound ring true always ring_series (ground arith) (omega arith) make_series-ring
      (omega arith) ring-segments 3 (seg (at 12 0) (at 16 0)) (omega arith) ring-third

-- the same ring without an index
abbrev never : Option IndexOptions
never = some (record { kind = quad_tree; min_points = 0 })

abbrev plain_series : BaseSeries Grid
plain_series = record ring_series { index_kind = 0; index = none }

make_series-plain : make_series ring true never ≡ ok plain_series
unfolding make_series process_points pass_from visit
make_series-plain = refl

distance_to_series-same_example :
    Returns
      (λ r.
        Returns
          (λ r'. same r.dist r'.dist ≡ true)
          (distance_to_series (of_series plain_series) to_rect to_segment))
      (distance_to_series (of_series ring_series) to_rect to_segment)
distance_to_series-same_example =
    distance_to_series-same Grid-IsOrdered to_rect to_segment to_segment-IsNumber to_rect-IsNumber
      to_rect_bound ring true always ring_series (ground arith) (omega arith) make_series-ring
      (omega arith) ring-segments never plain_series make_series-plain (omega arith) (omega arith)

-- a closed series of one point, with an index all the same
abbrev dot_series : BaseSeries Grid
dot_series = record {
  closed = true;
  clockwise = false;
  convex = false;
  index_kind = quad_tree;
  index = some (1 ∷ 7 ∷ 0 ∷ 0 ∷ 0 ∷ 0 ∷ 0 ∷ []);
  rect = box (at 0 0) (at 0 0);
  points = at 2 2 ∷ [];
}

make_series-dot : make_series (at 2 2 ∷ []) true always ≡ ok dot_series
unfolding make_series process_points pass_from visit build_index num_segments insert_segments
    set_compressed put_uint32 compress append_items append_uvarint put_uvarint sort_ints
make_series-dot = refl

dot-segments : num_segments dot_series ≡ ok 0
unfolding num_segments
dot-segments = refl

distance_to_series_empty_example :
    Returns (λ r. r.dist ≡ nan) (distance_to_series (of_series dot_series) to_rect to_segment)
distance_to_series_empty_example =
    distance_to_series_empty Grid-IsOrdered to_rect to_segment to_segment-IsNumber to_rect-IsNumber
      to_rect_bound (at 2 2 ∷ []) true always dot_series (ground arith) (omega arith)
      make_series-dot (omega arith) dot-segments refl
