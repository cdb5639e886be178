-- ===== src/Index/Moved/Tests.antt =====
-- A concrete run of Move, over the whole numbers of Float/Grid.antt.
use geometry.Prelude.{ℕ, ◌≡◌, refl, false, List, [], ◌∷◌, arith}
use geometry.Prelude.Lists.{keep}
use geometry.Prelude.Counts.{range_from, SameItems}
use geometry.Prelude.Sort.{sort_ints}
use geometry.Prelude.Run.{ok}
use geometry.Float.Grid.{Grid, fin, pos, grid_float, Grid-IsOrdered}
use geometry.Segment.{box, rect}
use geometry.Search.{Iter, each, is_hit}
use geometry.Series.{BaseSeries, quad_tree, num_segments, segment_at}
use geometry.Series.Process.{process_points, pass_from, visit}
use geometry.Varint.{append_uvarint, put_uvarint}
use geometry.QTree.{insert}
use geometry.QTree.Compress.{compress, append_items}
use geometry.Index.{
  make_series, search_series, build_index, insert_segments, move, move_points, set_compressed,
  put_uint32,
}
use geometry.Index.Moved.{move-search_series}
use geometry.Line.Same.Tests.{at, bend_indexed}

-- the bent line, moved by (1, 2)
abbrev moved_bend : BaseSeries Grid
moved_bend = record bend_indexed {
  rect = box (at 1 2) (at 5 6);
  points = at 1 2 ∷ at 5 2 ∷ at 5 6 ∷ [];
}

move-bend : move bend_indexed (fin (pos 1)) (fin (pos 2)) ≡ ok moved_bend
unfolding move make_series process_points pass_from visit build_index num_segments segment_at
    insert_segments insert rect set_compressed put_uint32 compress append_items append_uvarint
    put_uvarint sort_ints
move-bend = refl

move-search_series_example :
    (moved_bend.points ≡ move_points bend_indexed.points (fin (pos 1)) (fin (pos 2)))
    × (false ≡ false)
    × (quad_tree ≡ quad_tree)
    × ((n : ℕ) × (num_segments moved_bend ≡ ok n)
        × (order : List ℕ) × SameItems order
            (keep (is_hit (segment_at moved_bend) (box (at 0 0) (at 3 3))) (range_from 0 n))
        × ((iter : Iter Grid (List ℕ)) (s : List ℕ)
            → search_series moved_bend (box (at 0 0) (at 3 3)) iter s
              ≡ each (segment_at moved_bend) iter order s))
move-search_series_example =
    move-search_series Grid-IsOrdered bend_indexed moved_bend (fin (pos 1)) (fin (pos 2))
      (box (at 0 0) (at 3 3)) (ground arith) (omega arith) move-bend (omega arith)
