-- ===== src/Tests.antt =====
-- Concrete runs of the parts below the index, over the whole numbers of Float/Grid.antt.
use mathlib.Core.Path.{subst}
use geometry.Prelude.{
  ◌&&◌, ℕ, zero, suc, ◌+◌, ◌<◌, ◌≡◌, refl, true, false, some, List, [], ◌∷◌, ◌++◌, none, arith,
}
use geometry.Prelude.Tests.{◌==◌, if◌then◌else◌}
use geometry.Prelude.Lists.{length, keep, get_elem?}
use geometry.Prelude.Counts.{count, range_from}
use geometry.Prelude.Sort.{sort_ints}
use geometry.Prelude.Run.{ok, Returns}
use geometry.Float.Grid.{Grid, fin, pos, grid_float, Grid-IsOrdered}
use geometry.Point.{Point, pt}
use geometry.Segment.{Segment, Rect, seg, box, rect}
use geometry.Segment.Bounds.{rect-contains_point}
use geometry.Rect.{contains_point, contains_rect, intersects_rect, union}
use geometry.Rect.Order.{
  IsNumericRect, contains_rect-intersects_rect, union-contains_rect, contains_rect-union,
}
use geometry.Search.{Iter, each, is_hit, scan}
use geometry.Search.Scan.{scan-each}
use geometry.Series.{BaseSeries, num_segments, segment_at}
use geometry.Series.Process.{process_points}
use geometry.Series.Process.Bounds.{Encloses, process_points_bounds}
use geometry.Series.Segments.{segment_at_lem}
use geometry.Varint.{append_uvarint, put_uvarint, read_uvarint}
use geometry.Varint.RoundTrip.{read_uvarint-append_uvarint}
use geometry.QTree.{QNode, nil, node, insert, quad_bounds, choose_quad, bottom_left}
use geometry.QTree.Search.{q_compress_search}
use geometry.QTree.Placed.{contents, IsPlaced, IsHeld, quad_bounds-choose_quad}
use geometry.QTree.Inserted.{insert_adds}
use geometry.QTree.Packed.{packed, deltas, compress-packed}
use geometry.QTree.Compress.{compress}
use geometry.QTree.Visits.{visits}
use geometry.QTree.Found.{IsItem}
use geometry.QTree.Refines.{q_compress_search-each}

abbrev pub at : ℕ → ℕ → Point Grid
at x y = pt (fin (pos x)) (fin (pos y))

-- a path of two segments in a square
abbrev path_points : List (Point Grid)
path_points = at 0 0 ∷ at 3 0 ∷ at 8 8 ∷ []

abbrev pub square : Rect Grid
square = box (at 0 0) (at 8 8)

abbrev path : BaseSeries Grid
path = record {
  closed = false;
  clockwise = false;
  convex = false;
  index_kind = 0;
  index = none;
  rect = square;
  points = path_points;
}

abbrev count_calls : Iter Grid ℕ
count_calls n g i = ok (n + 1, true)

path_segments : num_segments path ≡ ok 2
unfolding num_segments
path_segments = refl

path_first : segment_at path 0 ≡ ok (seg (at 0 0) (at 3 0))
unfolding segment_at
path_first = refl

path_second : segment_at path 1 ≡ ok (seg (at 3 0) (at 8 8))
unfolding segment_at
path_second = refl

read_uvarint-append_uvarint_example :
    read_uvarint (append_uvarint (7 ∷ []) 300 ++ (9 ∷ [])) (some 1)
    ≡ ok (300, some (length (append_uvarint (7 ∷ []) 300)))
read_uvarint-append_uvarint_example =
    read_uvarint-append_uvarint 300 (7 ∷ []) (9 ∷ []) (omega arith)

choose_quad-square : choose_quad square (box (at 1 1) (at 2 3)) ≡ some bottom_left
unfolding choose_quad
choose_quad-square = refl

contains_rect-square : contains_rect square (box (at 1 1) (at 2 3)) ≡ true
unfolding contains_rect
contains_rect-square = refl

quad_bounds-choose_quad_example :
    contains_rect (quad_bounds square bottom_left) (box (at 1 1) (at 2 3)) ≡ true
quad_bounds-choose_quad_example =
    quad_bounds-choose_quad Grid-IsOrdered square (box (at 1 1) (at 2 3)) bottom_left
      contains_rect-square choose_quad-square

process_points_bounds_example :
    Returns (λ r. Encloses r.rect (at 8 8)) (process_points path_points false)
process_points_bounds_example =
    process_points_bounds Grid-IsOrdered path_points false 2 (at 8 8) refl refl

segment_at_lem_example :
    Returns
      (λ g.
        (j : ℕ) × (get_elem? path_points j ≡ some g.a)
        × ((k : ℕ) × (get_elem? path_points k ≡ some g.b)))
      (segment_at path 1)
segment_at_lem_example = segment_at_lem path path_segments 1 (omega arith)

rect-contains_point_example :
    (contains_point (rect (seg (at 3 5) (at 8 1))) (at 3 5) ≡ true)
    × (contains_point (rect (seg (at 3 5) (at 8 1))) (at 8 1) ≡ true)
rect-contains_point_example =
    rect-contains_point Grid-IsOrdered (seg (at 3 5) (at 8 1)) (refl, refl) (refl, refl)

inner-meets : intersects_rect (box (at 1 1) (at 2 3)) (box (at 2 2) (at 9 9)) ≡ true
unfolding intersects_rect
inner-meets = refl

contains_rect-intersects_rect_example : intersects_rect square (box (at 2 2) (at 9 9)) ≡ true
contains_rect-intersects_rect_example =
    contains_rect-intersects_rect Grid-IsOrdered square (box (at 1 1) (at 2 3))
      (box (at 2 2) (at 9 9)) ((refl, refl), (refl, refl)) contains_rect-square inner-meets

union-contains_rect_example :
    (contains_rect (union square (box (at 4 4) (at 9 5))) square ≡ true)
    × (contains_rect (union square (box (at 4 4) (at 9 5))) (box (at 4 4) (at 9 5)) ≡ true)
union-contains_rect_example = union-contains_rect Grid-IsOrdered square (box (at 4 4) (at 9 5))

contains_rect-union_example :
    contains_rect (box (at 0 0) (at 9 9)) (union square (box (at 4 4) (at 9 5))) ≡ (
      contains_rect (box (at 0 0) (at 9 9)) square
      && contains_rect (box (at 0 0) (at 9 9)) (box (at 4 4) (at 9 5)))
contains_rect-union_example =
    contains_rect-union Grid-IsOrdered square (box (at 4 4) (at 9 5)) (box (at 0 0) (at 9 9))
      ((refl, refl), (refl, refl))

path_ready : (j : ℕ) → j < 0 + 2 → (g : Segment Grid) × (segment_at path j ≡ ok g)
path_ready zero h = (seg (at 0 0) (at 3 0), path_first)
path_ready (suc zero) h = (seg (at 3 0) (at 8 8), path_second)
path_ready (suc (suc j)) h = absurd (omega arith)

scan-each_example :
    scan (segment_at path) square count_calls 2 0 0
    ≡ each (segment_at path) count_calls (keep (is_hit (segment_at path) square) (range_from 0 2)) 0
scan-each_example = scan-each (segment_at path) square count_calls 2 0 0 path_ready

-- a leaf that is full of items with the first segment
abbrev full_items : List ℕ
full_items = 0 ∷ 0 ∷ 0 ∷ 0 ∷ 0 ∷ 0 ∷ 0 ∷ 0 ∷ 0 ∷ 0 ∷ 0 ∷ 0 ∷ []

abbrev full_leaf : QNode
full_leaf = node false full_items nil nil nil nil

path_first-fits : contains_rect square (rect (seg (at 0 0) (at 3 0))) ≡ true
unfolding contains_rect rect
path_first-fits = refl

path_first-numeric : IsNumericRect (rect (seg (at 0 0) (at 3 0)))
unfolding rect
path_first-numeric = ((refl, refl), (refl, refl))

full_leaf-IsPlaced : IsPlaced path square full_leaf
full_leaf-IsPlaced = (
  λ i h.
      let e : 0 ≡ i = ground arith in
      subst (IsHeld path square) e
        (seg (at 0 0) (at 3 0), path_first, (path_first-numeric, path_first-fits)),
  λ _. (refl, refl, refl, refl),
  (tt, tt, tt, tt),
)

insert_adds_example :
    Returns
      (λ m.
        IsPlaced path square m
        × ((x : ℕ)
            → count x (contents m) ≡ (if x == 0 then 1 else 0) + count x (contents full_leaf)))
      (insert path 64 full_leaf square (rect (seg (at 0 0) (at 3 0))) 0)
insert_adds_example =
    insert_adds path Grid-IsOrdered 64 square full_leaf 0 (seg (at 0 0) (at 3 0)) refl
      full_leaf-IsPlaced path_first path_first-numeric path_first-fits

-- the first segment at the root, and the second in its first quad
abbrev pub tree : QNode
tree = node true (0 ∷ []) (node false (1 ∷ []) nil nil nil nil) nil nil nil

abbrev pub tree_bytes : List ℕ
tree_bytes = 1 ∷ 0 ∷ 1 ∷ 3 ∷ 1 ∷ 1 ∷ 0 ∷ 0 ∷ 0 ∷ 0 ∷ []

pub tree_bytes-packed : tree_bytes ≡ packed tree ++ []
unfolding packed deltas append_uvarint put_uvarint sort_ints
tree_bytes-packed = refl

tree-known : (i : ℕ) → 0 < count i (contents tree) → IsItem tree_bytes path square count_calls i
tree-known zero h = (omega arith, (seg (at 0 0) (at 3 0), path_first))
tree-known (suc zero) h = (omega arith, (seg (at 3 0) (at 8 8), path_second))
tree-known (suc (suc i)) h = absurd (ground arith)

compress-packed_example : compress (7 ∷ []) tree ≡ (7 ∷ []) ++ packed tree
compress-packed_example = compress-packed (7 ∷ []) tree

q_compress_search-each_example :
    q_compress_search 3 tree_bytes (some 0) path square square count_calls 0
    ≡ each (segment_at path) count_calls (visits path square square tree) 0
q_compress_search-each_example =
    q_compress_search-each tree_bytes path square count_calls (omega arith) tree 3 0 square [] 0
      tree-known (omega arith) (omega arith) tree_bytes-packed
