-- ===== src/Line/Same/Tests.antt =====
-- Concrete runs of lines with an index and without, over the whole numbers of Float/Grid.antt.
use geometry.Prelude.{ℕ, ◌≡◌, refl, true, false, ◌&&◌, Option, none, some, List, [], ◌∷◌, arith}
use geometry.Prelude.Sort.{sort_ints}
use geometry.Prelude.Agree.{Agree}
use geometry.Prelude.Run.{ok, Returns}
use geometry.Float.Grid.{Grid, fin, pos, grid_float, Grid-IsOrdered}
use geometry.Point.{Point, pt}
use geometry.Segment.{seg, box, rect}
use geometry.Segment.Raycast.{raycast}
use geometry.Segment.Raycast.Ends.{IsRising, raycast_ends}
use geometry.Series.{BaseSeries, IndexOptions, quad_tree, num_segments, segment_at}
use geometry.Series.Process.{process_points, pass_from, visit}
use geometry.Varint.{append_uvarint, put_uvarint}
use geometry.QTree.{insert}
use geometry.QTree.Compress.{compress, append_items}
use geometry.Index.{make_series, build_index, insert_segments, set_compressed, put_uint32}
use geometry.Line.{new_line, line_contains_point, line_intersects_line}
use geometry.Series.Drawn.{IsDrawn}
use geometry.Line.Same.{IsLine, line_contains_point-same, line_intersects_line-same}

abbrev pub at : ℕ → ℕ → Point Grid
at x y = pt (fin (pos x)) (fin (pos y))

pub Grid-IsRising : IsRising Grid
Grid-IsRising = record { next_up_above = λ y h. ground arith }

-- The point is level with an end of the segment, so the loop steps off it.
raycast_ends_example :
    Returns (λ r. (r.in_side && r.on) ≡ false) (raycast (seg (at 0 0) (at 8 8)) (at 2 0))
raycast_ends_example =
    raycast_ends Grid-IsOrdered Grid-IsRising (seg (at 0 0) (at 8 8)) (at 2 0) refl refl

abbrev pub bend_points : List (Point Grid)
bend_points = at 0 0 ∷ at 4 0 ∷ at 4 4 ∷ []

abbrev pub always : Option IndexOptions
always = some (record { kind = quad_tree; min_points = 1 })

abbrev pub bend : BaseSeries Grid
bend = record {
  closed = false;
  clockwise = false;
  convex = true;
  index_kind = 0;
  index = none;
  rect = box (at 0 0) (at 4 4);
  points = bend_points;
}

abbrev pub bend_indexed : BaseSeries Grid
bend_indexed = record bend {
  index_kind = quad_tree;
  index = some (1 ∷ 9 ∷ 0 ∷ 0 ∷ 0 ∷ 2 ∷ 0 ∷ 1 ∷ 0 ∷ []);
}

pub new_line-bend : new_line bend_points none ≡ ok bend
unfolding new_line make_series process_points pass_from visit
new_line-bend = refl

new_line-indexed : new_line bend_points always ≡ ok bend_indexed
unfolding new_line make_series process_points pass_from visit build_index num_segments segment_at
    insert_segments insert rect set_compressed put_uint32 compress append_items append_uvarint
    put_uvarint sort_ints
new_line-indexed = refl

bend-IsDrawn : IsDrawn bend_points
bend-IsDrawn = record { numeric = ground arith; low = ground arith; short = omega arith }

bend-IsLine : IsLine bend_points bend
bend-IsLine = record { opts = none; made = new_line-bend; small = omega arith }

indexed-IsLine : IsLine bend_points bend_indexed
indexed-IsLine = record { opts = always; made = new_line-indexed; small = omega arith }

line_contains_point-same_example :
    Agree
      (line_contains_point (some bend) (at 4 3))
      (line_contains_point (some bend_indexed) (at 4 3))
line_contains_point-same_example =
    line_contains_point-same Grid-IsOrdered Grid-IsRising bend_points bend-IsDrawn bend bend_indexed
      bend-IsLine indexed-IsLine (at 4 3)

line_intersects_line-same_example :
    Agree
      (line_intersects_line (some bend) (some bend_indexed))
      (line_intersects_line (some bend_indexed) (some bend))
line_intersects_line-same_example =
    line_intersects_line-same Grid-IsOrdered Grid-IsRising bend_points bend bend_indexed bend_points
      bend_indexed bend bend-IsDrawn bend-IsLine indexed-IsLine bend-IsDrawn indexed-IsLine
      bend-IsLine
