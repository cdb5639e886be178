-- ===== src/QTree/Placed.antt =====
-- What a quadtree holds, and that each of its items lies within the bounds of its node.
use geometry.Prelude.{ℕ, ◌+◌, ◌≡◌, Bool, true, false, some, List, [], ◌++◌, ◌<◌, arith}
use geometry.Prelude.Counts.{count, count-append}
use geometry.Prelude.Run.{Returns}
use geometry.Float.{Float}
use geometry.Float.Laws.{IsOrdered}
use geometry.Segment.{Rect, rect}
use geometry.Rect.{contains_rect}
use geometry.Rect.Order.{IsNumericRect}
use geometry.Series.{BaseSeries, segment_at}
use geometry.QTree.{
  Quad, top_left, top_right, bottom_left, bottom_right, QNode, nil, node, choose_quad, quad_bounds,
  middle,
}

-- The items of a tree.
abbrev pub contents : QNode → List ℕ
contents nil = []
contents (node split items a b c d) =
    items ++ (contents a ++ (contents b ++ (contents c ++ contents d)))

pub count-contents :
    (x : ℕ) (split : Bool) (items : List ℕ) (a b c d : QNode)
    → count x (contents (node split items a b c d))
      ≡ count x items
        + count x (contents a)
        + count x (contents b)
        + count x (contents c)
        + count x (contents d)
count-contents x split items a b c d = omega (
  arith,
  count-append x items (contents a ++ (contents b ++ (contents c ++ contents d))),
  count-append x (contents a) (contents b ++ (contents c ++ contents d)),
  count-append x (contents b) (contents c ++ contents d),
  count-append x (contents c) (contents d),
)

module _ {ℓ} {F : Type ℓ} ⦃fl : Float F⦄ (series : BaseSeries F) where
  -- The item is a segment without NaN, and its rectangle lies in the bounds.
  abbrev pub IsHeld : Rect F → ℕ → Type ℓ
  IsHeld bounds i =
      Returns (λ g. IsNumericRect (rect g) × (contains_rect bounds (rect g) ≡ true))
        (segment_at series i)

  -- Every item of the list lies in the bounds.
  abbrev pub Holds : Rect F → List ℕ → Type ℓ
  Holds bounds items = (i : ℕ) → 0 < count i items → IsHeld bounds i

  -- Every item at or below a node lies in its bounds, and a node that is not split has no quads.
  abbrev pub IsPlaced : Rect F → QNode → Type ℓ
  IsPlaced bounds nil = Unit
  IsPlaced bounds (node split items a b c d) =
      Holds bounds (contents (node split items a b c d))
      × (split ≡ false → (a ≡ nil) × (b ≡ nil) × (c ≡ nil) × (d ≡ nil))
      × (IsPlaced (quad_bounds bounds top_left) a
          × IsPlaced (quad_bounds bounds top_right) b
          × IsPlaced (quad_bounds bounds bottom_left) c
          × IsPlaced (quad_bounds bounds bottom_right) d)

  -- The part of that which concerns the quads.
  abbrev pub HasQuads : Rect F → QNode → QNode → QNode → QNode → Type ℓ
  HasQuads bounds a b c d =
      IsPlaced (quad_bounds bounds top_left) a
      × IsPlaced (quad_bounds bounds top_right) b
      × IsPlaced (quad_bounds bounds bottom_left) c
      × IsPlaced (quad_bounds bounds bottom_right) d

  pub IsPlaced-Holds : (bounds : Rect F) (n : QNode) → IsPlaced bounds n → Holds bounds (contents n)
  IsPlaced-Holds bounds nil placed = λ i h. absurd (omega arith)
  IsPlaced-Holds bounds (node split items a b c d) placed = placed.0

module _ {ℓ} {F : Type ℓ} ⦃fl : Float F⦄ (laws : IsOrdered F) where
  open laws use {less_asymm}

  -- A rectangle that lies in the bounds also lies in those of the quad that chooseQuad picks.
  pub quad_bounds-choose_quad :
      (bounds r : Rect F) (q : Quad)
      → contains_rect bounds r ≡ true
      → choose_quad bounds r ≡ some q
      → contains_rect (quad_bounds bounds q) r ≡ true
  unfolding choose_quad quad_bounds contains_rect
  quad_bounds-choose_quad bounds r top_left h e =
      ground (arith, less_asymm r.max.x (middle bounds.min.x bounds.max.x))
  quad_bounds-choose_quad bounds r top_right h e = ground arith
  quad_bounds-choose_quad bounds r bottom_left h e = ground (
    arith,
    less_asymm r.max.x (middle bounds.min.x bounds.max.x),
    less_asymm r.max.y (middle bounds.min.y bounds.max.y),
  )
  quad_bounds-choose_quad bounds r bottom_right h e =
      ground (arith, less_asymm r.max.y (middle bounds.min.y bounds.max.y))
