-- ===== src/QTree/Nearby/Tests.antt =====
-- Concrete runs of the nearest-segment search, over the whole numbers of Float/Grid.antt: the
-- distance to a segment or a rectangle is its left side.
use geometry.Prelude.{ℕ, zero, suc, ◌<◌, ◌≡◌, refl, true, false, none, some, [], ◌∷◌, arith}
use geometry.Prelude.Tests.{if◌then◌else◌}
use geometry.Prelude.Counts.{count}
use geometry.Prelude.Run.{ok, Returns}
use geometry.Float.{less, same, IsNumber}
use geometry.Float.Grid.{Grid, fin, pos, neg_inf, grid_float, Grid-IsOrdered}
use geometry.Segment.{Segment, Rect, seg, rect}
use geometry.Rect.{contains_rect}
use geometry.Rect.Order.{IsNumericRect}
use geometry.Series.{BaseSeries, segment_at}
use geometry.Varint.{read_uvarint}
use geometry.Queue.{push, pop, sift_up, sift_down, lesser, cmp}
use geometry.QTree.{quad_bounds, top_left}
use geometry.QTree.Placed.{contents, IsHeld}
use geometry.QTree.Nearby.{q_compress_nearby_segment, push_node, near_items, push_quads}
use geometry.QTree.Nearby.Queued.{Stands}
use geometry.QTree.Nearby.Finds.{q_compress_nearby_segment_least}
use geometry.Tests.{at, square, tree, tree_bytes, tree_bytes-packed}

abbrev pub to_segment : Segment Grid → Grid
to_segment g = (rect g).min.x

abbrev pub to_rect : Rect Grid → Grid
to_rect r = if same r.min.x r.min.x then r.min.x else neg_inf

pub to_segment-IsNumber : (g : Segment Grid) → IsNumericRect (rect g) → IsNumber (to_segment g)
to_segment-IsNumber g numeric = numeric.0.0

pub to_rect-IsNumber : (r : Rect Grid) → IsNumber (to_rect r)
to_rect-IsNumber r = ground arith

pub to_rect_bound :
    (r : Rect Grid) (g : Segment Grid)
    → contains_rect r (rect g) ≡ true
    → less (to_segment g) (to_rect r) ≡ false
unfolding contains_rect
to_rect_bound r g h = ground arith

-- a path whose second segment lies in the first quad of the square
abbrev slope : BaseSeries Grid
slope = record {
  closed = false;
  clockwise = false;
  convex = false;
  index_kind = 0;
  index = none;
  rect = square;
  points = at 6 0 ∷ at 3 5 ∷ at 1 7 ∷ [];
}

slope_first : segment_at slope 0 ≡ ok (seg (at 6 0) (at 3 5))
unfolding segment_at
slope_first = refl

slope_second : segment_at slope 1 ≡ ok (seg (at 3 5) (at 1 7))
unfolding segment_at
slope_second = refl

slope_first-IsHeld : IsHeld slope square 0
unfolding contains_rect rect
slope_first-IsHeld = (seg (at 6 0) (at 3 5), slope_first, (((refl, refl), (refl, refl)), refl))

slope_second-IsHeld :
    (bounds : Rect Grid)
    → contains_rect bounds (rect (seg (at 3 5) (at 1 7))) ≡ true
    → IsHeld slope bounds 1
unfolding rect
slope_second-IsHeld bounds fits =
    (seg (at 3 5) (at 1 7), slope_second, (((refl, refl), (refl, refl)), fits))

slope_second-fits :
    (contains_rect square (rect (seg (at 3 5) (at 1 7))) ≡ true)
    × (contains_rect (quad_bounds square top_left) (rect (seg (at 3 5) (at 1 7))) ≡ true)
unfolding contains_rect rect quad_bounds
slope_second-fits = (refl, refl)

tree-IsHeld : (i : ℕ) → 0 < count i (contents tree) → IsHeld slope square i
tree-IsHeld zero h = slope_first-IsHeld
tree-IsHeld (suc zero) h = slope_second-IsHeld square slope_second-fits.0
tree-IsHeld (suc (suc i)) h = absurd (ground arith)

quad-IsHeld : (i : ℕ) → 0 < count i (1 ∷ []) → IsHeld slope (quad_bounds square top_left) i
quad-IsHeld zero h = absurd (ground arith)
quad-IsHeld (suc zero) h = slope_second-IsHeld (quad_bounds square top_left) slope_second-fits.1
quad-IsHeld (suc (suc i)) h = absurd (ground arith)

tree-Stands : Stands tree_bytes (λ i. i < 2) slope to_rect to_segment tree 0 square
tree-Stands = record {
  rest = [];
  here = tree_bytes-packed;
  full = omega arith;
  placed = (
    tree-IsHeld,
    (λ e. cc),
    ((quad-IsHeld, (λ _. (refl, refl, refl, refl)), (tt, tt, tt, tt)), tt, tt, tt),
  );
  inside = λ x h. ground arith;
}

q_compress_nearby_segment_least_example :
    Returns
      (λ r.
        (i : ℕ) × (i < 2)
        × (0 < count i (contents tree))
        × (r.idx ≡ some i)
        × (segment_at slope i ≡ ok r.nearest)
        × (r.dist ≡ to_segment r.nearest)
        × (less (to_segment (seg (at 6 0) (at 3 5))) r.dist ≡ false))
      (q_compress_nearby_segment 3 tree_bytes (some 0) slope square to_rect to_segment [])
q_compress_nearby_segment_least_example =
    q_compress_nearby_segment_least Grid-IsOrdered tree_bytes 2 (omega arith) slope to_rect
      to_segment to_segment-IsNumber to_rect-IsNumber (omega arith) to_rect_bound 3 tree square 0 0
      (seg (at 6 0) (at 3 5)) tree-Stands (omega arith) (omega arith) slope_first

-- The segment in the quad is the nearest.
q_compress_nearby_segment-slope :
    q_compress_nearby_segment 3 tree_bytes (some 0) slope square to_rect to_segment []
    ≡ ok (record { nearest = seg (at 3 5) (at 1 7); idx = some 1; dist = fin (pos 1) })
unfolding q_compress_nearby_segment push_node near_items push_quads read_uvarint push pop sift_up
    sift_down lesser cmp segment_at rect quad_bounds
q_compress_nearby_segment-slope = refl
