-- ===== src/QTree/Visits.antt =====
-- The specification of the packed search: which items of the tree it visits, in which order.
use mathlib.Core.List.{append-nil}
use geometry.Prelude.{ℕ, ◌≡◌, refl, Bool, true, false, List, [], ◌++◌, inl, inr, arith}
use geometry.Prelude.Tests.{if◌then◌else◌, Bool-cases}
use geometry.Prelude.Lists.{keep}
use geometry.Prelude.Counts.{count-append, keep-append, keep_none, SameItems}
use geometry.Prelude.Sort.{sort_ints, sort_ints-SameItems}
use geometry.Float.{Float}
use geometry.Float.Laws.{IsOrdered}
use geometry.Segment.{Rect, rect}
use geometry.Rect.{intersects_rect}
use geometry.Rect.Order.{contains_rect-intersects_rect}
use geometry.Search.{is_hit}
use geometry.Series.{BaseSeries, segment_at}
use geometry.QTree.{
  Quad, top_left, top_right, bottom_left, bottom_right, QNode, nil, node, quad_bounds,
}
use geometry.QTree.Placed.{contents, count-contents, IsPlaced, IsPlaced-Holds}

-- The items in the order in which they are packed.
unfoldable pub stored : QNode → List ℕ
stored nil = []
stored (node split items a b c d) =
    let below = stored a ++ (stored b ++ (stored c ++ stored d)) in
    sort_ints items ++ (if split then below else [])

module _ {ℓ} {F : Type ℓ} ⦃fl : Float F⦄ (series : BaseSeries F) where
  -- The items that are visited, where a quad that does not meet the target is passed over.
  unfoldable pub visits : Rect F → Rect F → QNode → List ℕ
  visits bounds target nil = []
  visits bounds target (node split items a b c d) =
      let quad = λ (q : Quad) (below : List ℕ).
        if intersects_rect (quad_bounds bounds q) target then below else [] in
      let va = quad top_left (visits (quad_bounds bounds top_left) target a) in
      let vb = quad top_right (visits (quad_bounds bounds top_right) target b) in
      let vc = quad bottom_left (visits (quad_bounds bounds bottom_left) target c) in
      let vd = quad bottom_right (visits (quad_bounds bounds bottom_right) target d) in
      keep (is_hit (segment_at series) target) (sort_ints items)
      ++ (if split then va ++ (vb ++ (vc ++ vd)) else [])

  pub stored-SameItems :
      (bounds : Rect F) (n : QNode) → IsPlaced series bounds n → SameItems (stored n) (contents n)
  unfolding stored
  stored-SameItems bounds nil placed x = refl
  stored-SameItems bounds (node true items a b c d) (held, leaf, quads) x = omega (
    arith,
    count-append x (sort_ints items) (stored a ++ (stored b ++ (stored c ++ stored d))),
    count-append x (stored a) (stored b ++ (stored c ++ stored d)),
    count-append x (stored b) (stored c ++ stored d),
    count-append x (stored c) (stored d),
    count-contents x true items a b c d,
    sort_ints-SameItems items x,
    stored-SameItems (quad_bounds bounds top_left) a quads.0 x,
    stored-SameItems (quad_bounds bounds top_right) b quads.1 x,
    stored-SameItems (quad_bounds bounds bottom_left) c quads.2 x,
    stored-SameItems (quad_bounds bounds bottom_right) d quads.3 x,
  )
  stored-SameItems bounds (node false items a b c d) (held, leaf, quads) x =
      let (ea, eb, ec, ed) = leaf refl in
      rw (ea, eb, ec, ed)
        (omega (
          arith,
          count-append x (sort_ints items) [],
          count-append x items [],
          sort_ints-SameItems items x,
        ))

  module _ (laws : IsOrdered F) (target : Rect F) where
    abbrev hit : ℕ → Bool
    hit = is_hit (segment_at series) target

    -- In bounds that do not meet the target, no item is hit.
    keep-outside :
        (bounds : Rect F) (n : QNode)
        → IsPlaced series bounds n
        → intersects_rect bounds target ≡ false
        → keep hit (stored n) ≡ []
    keep-outside bounds n placed apart = keep_none hit (stored n) λ i h.
        let (g, at, (numeric, inside)) =
          IsPlaced-Holds series bounds n placed i
            (omega (arith, stored-SameItems bounds n placed i)) in
        rw at (
          ground (
            arith,
            apart,
            contains_rect-intersects_rect laws bounds (rect g) target numeric inside,
          ))

    -- A quad may be passed over where its bounds do not meet the target.
    quad-keep :
        (bounds : Rect F) (n : QNode) (below : List ℕ)
        → IsPlaced series bounds n
        → below ≡ keep hit (stored n)
        → (if intersects_rect bounds target then below else []) ≡ keep hit (stored n)
    quad-keep bounds n below placed e = elim (Bool-cases (intersects_rect bounds target)) [
      | inl near ↦ rw near e
      | inr apart ↦ rw (apart, keep-outside bounds n placed apart)
    ]

    -- In a tree whose items lie in the bounds of their nodes, the items visited are those whose
    -- rectangles meet the target.
    pub visits-keep :
        (bounds : Rect F) (n : QNode)
        → IsPlaced series bounds n
        → visits bounds target n ≡ keep hit (stored n)
    unfolding visits stored
    visits-keep bounds nil placed = refl
    visits-keep bounds (node false items a b c d) placed = simp append-nil
    visits-keep bounds (node true items a b c d) (held, leaf, quads) =
        let quad = λ (q : Quad) (n : QNode).
          quad-keep (quad_bounds bounds q) n (visits (quad_bounds bounds q) target n) in
        rw
          (
            quad top_left a quads.0 (visits-keep (quad_bounds bounds top_left) a quads.0),
            quad top_right b quads.1 (visits-keep (quad_bounds bounds top_right) b quads.1),
            quad bottom_left c quads.2 (visits-keep (quad_bounds bounds bottom_left) c quads.2),
            quad bottom_right d quads.3 (visits-keep (quad_bounds bounds bottom_right) d quads.3),
          )
          (simp keep-append)
