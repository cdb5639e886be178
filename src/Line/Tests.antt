-- ===== src/Line/Tests.antt =====
-- Concrete runs of rings and lines, over the whole numbers of Float/Grid.antt.
use geometry.Prelude.{
  ℕ, zero, suc, ◌+◌, ◌≡◌, refl, true, false, Option, none, some, List, [], ◌∷◌, arith,
}
use geometry.Prelude.Lists.{keep}
use geometry.Prelude.Counts.{range_from}
use geometry.Prelude.Sort.{sort_ints}
use geometry.Prelude.Run.{ok, out_of_fuel, Returns}
use geometry.Float.Grid.{Grid, fin, pos, grid_float, Grid-IsOrdered}
use geometry.Point.{Point, pt}
use geometry.Segment.{Segment, seg, box, rect}
use geometry.Segment.Raycast.{RaycastResult, inside, neither, raycast}
use geometry.Segment.Intersect.{contains_segment}
use geometry.Search.{is_hit}
use geometry.Series.{BaseSeries, IndexOptions, quad_tree, num_segments, segment_at, empty}
use geometry.Series.Process.{process_points, pass_from, visit}
use geometry.Varint.{append_uvarint, put_uvarint}
use geometry.QTree.{insert}
use geometry.QTree.Compress.{compress, append_items}
use geometry.Index.{make_series, build_index, insert_segments, set_compressed, put_uint32}
use geometry.Ring.{of_series}
use geometry.Ring.Points.{ring_contains_point, ray_line}
use geometry.Ring.Tally.{tally, ring_contains_point-tally}
use geometry.Line.{follow, find_segment, line_contains_line}
use geometry.Line.Loop.{follow-out_of_fuel}

abbrev at : ℕ → ℕ → Point Grid
at x y = pt (fin (pos x)) (fin (pos y))

abbrev square_points : List (Point Grid)
square_points = at 0 0 ∷ at 4 0 ∷ at 4 4 ∷ at 0 4 ∷ []

abbrev always : Option IndexOptions
always = some (record { kind = quad_tree; min_points = 1 })

abbrev square : BaseSeries Grid
square = record {
  closed = true;
  clockwise = false;
  convex = true;
  index_kind = quad_tree;
  index = some (1 ∷ 11 ∷ 0 ∷ 0 ∷ 0 ∷ 4 ∷ 0 ∷ 1 ∷ 1 ∷ 1 ∷ 0 ∷ []);
  rect = box (at 0 0) (at 4 4);
  points = square_points;
}

make_series-square : make_series square_points true always ≡ ok square
unfolding make_series process_points pass_from visit build_index num_segments segment_at
    insert_segments insert rect set_compressed put_uint32 compress append_items append_uvarint
    put_uvarint sort_ints
make_series-square = refl

-- The ray from (1, 2) crosses the right side.
abbrev square_cast : ℕ → RaycastResult
square_cast (suc zero) = inside
square_cast i = neither

cast_at :
    (i : ℕ) (h g : Segment Grid) (r : RaycastResult)
    → segment_at square i ≡ ok h
    → raycast h (at 1 2) ≡ ok r
    → segment_at square i ≡ ok g
    → raycast g (at 1 2) ≡ ok r
cast_at i h g r eh c eg = let e : h ≡ g = cc in cc

square_casts :
    (i : ℕ) (g : Segment Grid)
    → segment_at square i ≡ ok g
    → raycast g (at 1 2) ≡ ok (square_cast i)
unfolding segment_at raycast
square_casts zero g e = cast_at 0 (seg (at 0 0) (at 4 0)) g neither refl refl e
square_casts (suc zero) g e = cast_at 1 (seg (at 4 0) (at 4 4)) g inside refl refl e
square_casts (suc (suc zero)) g e = cast_at 2 (seg (at 4 4) (at 0 4)) g neither refl refl e
square_casts (suc (suc (suc zero))) g e = cast_at 3 (seg (at 0 4) (at 0 0)) g neither refl refl e
square_casts (suc (suc (suc (suc i)))) g e = cc

ring_contains_point-tally_example :
    (n : ℕ) × (num_segments square ≡ ok n)
    × Returns
        (λ r.
          r.hit
          ≡ tally square_cast true
              (keep (is_hit (segment_at square) (ray_line (at 1 2))) (range_from 0 n))
              false)
        (ring_contains_point (of_series square) (at 1 2) true)
ring_contains_point-tally_example =
    ring_contains_point-tally Grid-IsOrdered square_points always square (at 1 2) square_cast true
      (ground arith) (omega arith) make_series-square (omega arith) square_casts

abbrev bare_line : List (Point Grid) → BaseSeries Grid
bare_line points = record {
  closed = false;
  clockwise = false;
  convex = false;
  index_kind = 0;
  index = none;
  rect = box (at 0 0) (at 20 5);
  points = points;
}

-- a line along the x axis in two segments, one that turns off at their common point, and one that
-- turns off before it
abbrev along : BaseSeries Grid
along = bare_line (at 0 0 ∷ at 10 0 ∷ at 20 0 ∷ [])

abbrev turning : BaseSeries Grid
turning = bare_line (at 5 0 ∷ at 10 0 ∷ at 10 5 ∷ [])

abbrev leaving : BaseSeries Grid
leaving = bare_line (at 2 0 ∷ at 5 0 ∷ at 5 5 ∷ [])

misses_first : contains_segment (seg (at 0 0) (at 10 0)) (seg (at 10 0) (at 10 5)) ≡ ok false
unfolding contains_segment
misses_first = refl

misses_second : contains_segment (seg (at 10 0) (at 20 0)) (seg (at 10 0) (at 10 5)) ≡ ok false
unfolding contains_segment
misses_second = refl

along_first : segment_at along 0 ≡ ok (seg (at 0 0) (at 10 0))
unfolding segment_at
along_first = refl

along_second : segment_at along 1 ≡ ok (seg (at 10 0) (at 20 0))
unfolding segment_at
along_second = refl

turning_second : segment_at turning 1 ≡ ok (seg (at 10 0) (at 10 5))
unfolding segment_at
turning_second = refl

follow-out_of_fuel_example :
    (follow 1000 along turning 2 0 1 1 ≡ out_of_fuel)
    × (follow 1000 along turning 2 (0 + 1) 1 1 ≡ out_of_fuel)
follow-out_of_fuel_example =
    follow-out_of_fuel along turning 2 0 1 0 (seg (at 0 0) (at 10 0)) (seg (at 10 0) (at 20 0))
      (seg (at 10 0) (at 10 5)) 1000 along_first along_second turning_second misses_first
      misses_second refl refl refl (omega arith)

line_contains_line-turning : line_contains_line 50 (some along) (some turning) ≡ out_of_fuel
unfolding line_contains_line find_segment follow contains_segment segment_at num_segments empty
line_contains_line-turning = refl

line_contains_line-leaving : line_contains_line 50 (some along) (some leaving) ≡ ok true
unfolding line_contains_line find_segment follow contains_segment segment_at num_segments empty
line_contains_line-leaving = refl
