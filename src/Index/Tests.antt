-- ===== src/Index/Tests.antt =====
-- Concrete runs of the index, over the whole numbers of Float/Grid.antt.
use geometry.Prelude.{
  ℕ, ◌≡◌, refl, true, false, Option, some, List, [], ◌∷◌, ◌++◌, ◌&&◌, not, arith,
}
use geometry.Prelude.Lists.{keep}
use geometry.Prelude.Counts.{SameItems, range_from}
use geometry.Prelude.Sort.{sort_ints}
use geometry.Prelude.Run.{ok, Returns}
use geometry.Float.Grid.{Grid, fin, pos, grid_float, Grid-IsOrdered}
use geometry.Point.{Point, pt}
use geometry.Segment.{box, rect}
use geometry.Rect.{intersects_rect}
use geometry.Search.{Iter, each, is_hit}
use geometry.Series.{BaseSeries, IndexOptions, quad_tree, num_segments, segment_at}
use geometry.Series.Process.{process_points, pass_from, visit}
use geometry.Series.Process.Corners.{repeats, corners, process_points_shape}
use geometry.Series.Process.Shape.{turns_left, turns_right, area_below}
use geometry.Float.{less, const}
use geometry.Varint.{append_uvarint, put_uvarint, read_uvarint}
use geometry.QTree.{insert, place, redistribute, choose_quad, quad_bounds}
use geometry.QTree.Compress.{compress, append_items}
use geometry.QTree.Search.{q_compress_search, search_items, search_below, search_quads}
use geometry.Index.{
  make_series, search_series, build_index, insert_segments, set_compressed, put_uint32, uint32,
}
use geometry.Index.Answers.{IsReady, make_series-IsReady, make_series-search_series}

abbrev pub at : ℕ → ℕ → Point Grid
at x y = pt (fin (pos x)) (fin (pos y))

-- a ring of fourteen points
abbrev pub ring : List (Point Grid)
ring =
    at 0 0
    ∷ at 4 0
    ∷ at 8 0
    ∷ at 12 0
    ∷ at 16 0
    ∷ at 16 4
    ∷ at 16 8
    ∷ at 16 12
    ∷ at 16 16
    ∷ at 12 16
    ∷ at 8 16
    ∷ at 4 16
    ∷ at 0 16
    ∷ at 0 8
    ∷ []

abbrev pub always : Option IndexOptions
always = some (record { kind = quad_tree; min_points = 1 })

-- its index: four items at the root, and all four quads
abbrev ring_index : List ℕ
ring_index =
    1 ∷ 33 ∷ 0 ∷ 0 ∷ 0 ∷ 4 ∷ 1 ∷ 4 ∷ 5 ∷ 3 ∷ 1 ∷ 4 ∷ 2 ∷ 11 ∷ 1 ∷ 0 ∷ 6 ∷ 4 ∷ 6 ∷ 1 ∷ 1 ∷ 1 ∷ 0 ∷ 3
    ∷ 1 ∷ 0 ∷ 0 ∷ 5 ∷ 3 ∷ 2 ∷ 1 ∷ 1 ∷ 0 ∷ []

abbrev pub ring_series : BaseSeries Grid
ring_series = record {
  closed = true;
  clockwise = false;
  convex = true;
  index_kind = quad_tree;
  index = some ring_index;
  rect = box (at 0 0) (at 16 16);
  points = ring;
}

pub make_series-ring : make_series ring true always ≡ ok ring_series
unfolding make_series process_points pass_from visit build_index num_segments segment_at
    insert_segments insert place redistribute choose_quad quad_bounds rect set_compressed put_uint32
    compress append_items append_uvarint put_uvarint sort_ints
make_series-ring = refl

-- the callback that notes the indices
abbrev note : Iter Grid (List ℕ)
note seen g i = ok (i ∷ seen, true)

search_series-ring :
    search_series ring_series (box (at 10 0) (at 20 3)) note [] ≡ ok (4 ∷ 3 ∷ 2 ∷ [], true)
unfolding search_series uint32 q_compress_search search_items search_below search_quads read_uvarint
    intersects_rect segment_at rect quad_bounds
search_series-ring = refl

make_series-search_series_example :
    (n : ℕ) × (num_segments ring_series ≡ ok n)
    × (order : List ℕ) × SameItems order
        (keep (is_hit (segment_at ring_series) (box (at 10 0) (at 20 3))) (range_from 0 n))
    × ((iter : Iter Grid (List ℕ)) (s : List ℕ)
        → search_series ring_series (box (at 10 0) (at 20 3)) iter s
          ≡ each (segment_at ring_series) iter order s)
make_series-search_series_example =
    make_series-search_series Grid-IsOrdered ring true always ring_series (ground arith)
      (omega arith) make_series-ring (box (at 10 0) (at 20 3)) (omega arith)

make_series-IsReady_example :
    Returns
      (λ s. (s.points ≡ ring) × (s.closed ≡ true) × IsReady Grid-IsOrdered s)
      (make_series ring true always)
make_series-IsReady_example = make_series-IsReady Grid-IsOrdered ring true always (ground arith)

-- a ring that comes back to its first point, where it bends inwards
abbrev arrow : List (Point Grid)
arrow = at 2 1 ∷ at 4 0 ∷ at 2 4 ∷ at 0 0 ∷ at 2 1 ∷ []

process_points-arrow :
    process_points arrow true
    ≡ ok (record { convex = true; rect = box (at 0 0) (at 4 4); clockwise = false })
unfolding process_points pass_from visit
process_points-arrow = refl

abbrev dart : List (Point Grid)
dart = at 4 0 ∷ at 2 4 ∷ at 0 0 ∷ at 2 1 ∷ []

-- The dart turns both ways.
process_points_shape_example :
    Returns
      (λ r.
        (r.convex ≡ not (turns_right (corners dart) && turns_left (corners dart)))
        × (r.clockwise ≡ less (const 0) (area_below (dart ++ (at 4 0 ∷ at 2 4 ∷ [])) (const 0))))
      (process_points dart true)
process_points_shape_example =
    process_points_shape Grid-IsOrdered (at 4 0) (at 2 4) (at 0 0 ∷ at 2 1 ∷ []) true refl refl

-- So does the arrow, which repeats its first point.
corners-arrow :
    (repeats (arrow ++ arrow) ≡ true)
    × ((turns_right (corners arrow) && turns_left (corners arrow)) ≡ true)
corners-arrow = (refl, refl)

process_points-dart :
    process_points dart true
    ≡ ok (record { convex = false; rect = box (at 0 0) (at 4 4); clockwise = false })
unfolding process_points pass_from visit
process_points-dart = refl
