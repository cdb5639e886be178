-- ===== src/QTree.antt =====
-- qtree.go: the quadtree over the segments of a series, as a tree of nodes. Its packed form and
-- the search of that are in the child modules.
pub mod Compress
pub mod Search
pub mod Placed
pub mod Grown
pub mod Inserted
pub mod Visits
pub mod Packed
pub mod Found
pub mod Whole
pub mod Refines
pub mod Nearby
use geometry.Prelude.{ℕ, zero, suc, Bool, true, false, Option, none, some, List, [], ◌∷◌, ◌++◌}
use geometry.Prelude.Tests.{◌==◌, if◌then◌else◌}
use geometry.Prelude.Lists.{length}
use geometry.Prelude.Run.{Run, ok, panic, ◌>>=◌}
use geometry.Float.{Float, ◌⊕◌, ◌⊘◌, const, less}
use geometry.Point.{Point, pt}
use geometry.Segment.{Segment, Rect, rect, box}
use geometry.Series.{BaseSeries, segment_at}

abbrev pub q_max_items : ℕ
q_max_items = 12

abbrev pub q_max_depth : ℕ
q_max_depth = 64

-- the numbers 0, 1, 2 and 3 of the quads
pub data Quad : Type 0 where
  top_left top_right bottom_left bottom_right : Quad

-- A *qNode: nil, or the fields split, items and the four quads.
pub data QNode : Type 0 where
  nil : QNode
  node : Bool → List ℕ → QNode → QNode → QNode → QNode → QNode

-- new(qNode)
abbrev pub new_node : QNode
new_node = node false [] nil nil nil nil

-- n.items = append(n.items, item)
abbrev pub add_item : QNode → ℕ → Run QNode
add_item nil item = panic
add_item (node split items a b c d) item = ok (node split (items ++ (item ∷ [])) a b c d)

-- n.items = items; n.split = true
abbrev pub set_split : QNode → List ℕ → QNode
set_split nil items = nil
set_split (node split old a b c d) items = node true items a b c d

abbrev pub allocated : QNode → QNode
allocated nil = new_node
allocated (node split items a b c d) = node split items a b c d

-- A call on n.quads[q], which is made if it is nil.
abbrev pub on_quad : Quad → (QNode → Run QNode) → QNode → Run QNode
on_quad q f nil = panic
on_quad top_left f (node s is a b c d) = do a' ← f (allocated a); ok (node s is a' b c d)
on_quad top_right f (node s is a b c d) = do b' ← f (allocated b); ok (node s is a b' c d)
on_quad bottom_left f (node s is a b c d) = do c' ← f (allocated c); ok (node s is a b c' d)
on_quad bottom_right f (node s is a b c d) = do d' ← f (allocated d); ok (node s is a b c d')

-- n.insert at the depth below: the node, its bounds, the rectangle of the item, and the item
abbrev pub Insert {ℓ} : Type ℓ → Type ℓ
Insert F = QNode → Rect F → Rect F → ℕ → Run QNode

-- if q == -1 { here } else { there }
abbrev pub in_quad {ℓ} : {A : Type ℓ} → Option Quad → A → (Quad → A) → A
in_quad none here there = here
in_quad (some q) here there = there q

module _ {ℓ} {F : Type ℓ} ⦃fl : Float F⦄ where
  abbrev pub middle : F → F → F
  middle lo hi = (lo ⊕ hi) ⊘ const 2

  -- chooseQuad, with `none` for -1
  unfoldable pub choose_quad : Rect F → Rect F → Option Quad
  choose_quad bounds r =
      let mid_x = middle bounds.min.x bounds.max.x in
      let mid_y = middle bounds.min.y bounds.max.y in
      if less r.max.x mid_x
      then (if less r.max.y mid_y
          then some bottom_left
          else if less r.min.y mid_y
          then none
          else some top_left)
      else if less r.min.x mid_x
      then none
      else if less r.max.y mid_y
      then some bottom_right
      else if less r.min.y mid_y
      then none
      else some top_right

  unfoldable pub quad_bounds : Rect F → Quad → Rect F
  quad_bounds r top_left =
      box (pt r.min.x (middle r.min.y r.max.y)) (pt (middle r.min.x r.max.x) r.max.y)
  quad_bounds r top_right =
      box (pt (middle r.min.x r.max.x) (middle r.min.y r.max.y)) (pt r.max.x r.max.y)
  quad_bounds r bottom_left =
      box (pt r.min.x r.min.y) (pt (middle r.min.x r.max.x) (middle r.min.y r.max.y))
  quad_bounds r bottom_right =
      box (pt (middle r.min.x r.max.x) r.min.y) (pt r.max.x (middle r.min.y r.max.y))

  -- Insert's branch for a node that is split.
  unfoldable pub place : Insert F → Insert F
  place below n bounds r item =
      in_quad (choose_quad bounds r) (add_item n item)
        (λ q. on_quad q (λ c. below c (quad_bounds bounds q) r item) n)

  -- The loop over the items of a node that is full, with nitems.
  unfoldable pub redistribute :
      BaseSeries F → Insert F → Rect F → List ℕ → QNode → List ℕ → Run (QNode × List ℕ)
  redistribute series below bounds [] n nitems = ok (n, nitems)
  redistribute series below bounds (iitem ∷ rest) n nitems = do
    g ← segment_at series iitem
    let here = redistribute series below bounds rest n (nitems ++ (iitem ∷ []))
    in_quad (choose_quad bounds (rect g)) here (λ q.
        on_quad q (λ c. below c (quad_bounds bounds q) (rect g) iitem) n >>= λ m.
        redistribute series below bounds rest m nitems)

  -- qNode.insert with this many levels below: qMaxDepth - depth
  unfoldable pub insert : BaseSeries F → ℕ → Insert F
  insert series level nil bounds r item = panic
  insert series zero (node split items a b c d) bounds r item =
      add_item (node split items a b c d) item
  insert series (suc level) (node split items a b c d) bounds r item =
      let n = node split items a b c d in
      let below = insert series level in
      if split
      then place below n bounds r item
      else if length items == q_max_items
      then (do
        (m, nitems) ← redistribute series below bounds items n []
        place below (set_split m nitems) bounds r item)
      else add_item n item
