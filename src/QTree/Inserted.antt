-- ===== src/QTree/Inserted.antt =====
-- qNode.insert adds the item, loses none, and keeps every item within the bounds of its node.
use geometry.Prelude.{
  ◌<◌, ℕ, zero, suc, ◌+◌, ◌≡◌, refl, Bool, true, false, List, [], ◌∷◌, ◌++◌, inl, inr, arith,
}
use geometry.Prelude.Tests.{◌==◌, if◌then◌else◌, Bool-cases, Option-cases}
use geometry.Prelude.Lists.{length}
use geometry.Prelude.Counts.{count, count-append}
use geometry.Prelude.Run.{ok, Returns}
use geometry.Float.{Float}
use geometry.Float.Laws.{IsOrdered}
use geometry.Segment.{Segment, Rect, rect}
use geometry.Rect.{contains_rect}
use geometry.Rect.Order.{IsNumericRect}
use geometry.Series.{BaseSeries, segment_at}
use geometry.QTree.{
  QNode, nil, node, allocated, choose_quad, quad_bounds, Insert, place, redistribute, insert,
  q_max_items,
}
use geometry.QTree.Placed.{
  contents, count-contents, Holds, IsPlaced, HasQuads, quad_bounds-choose_quad,
}
use geometry.QTree.Grown.{Inserted, Fits, Inserts, on_quad-Inserted, Holds-gain, add_item-Inserted}

module _ {ℓ} {F : Type ℓ} ⦃fl : Float F⦄ (series : BaseSeries F) where
  module _ (laws : IsOrdered F) (below : Insert F) (inserts : Inserts series below) where
    -- The branch of a split node.
    place-Inserted :
        (bounds : Rect F) (items : List ℕ) (a b c d : QNode) (item : ℕ) (g : Segment F)
        → IsPlaced series bounds (node true items a b c d)
        → Fits series bounds item g
        → Returns
            (Inserted series bounds item (node true items a b c d))
            (place below (node true items a b c d) bounds (rect g) item)
    unfolding place
    place-Inserted bounds items a b c d item g (held, leaf, quads) (at, numeric, inside) =
        elim (Option-cases (choose_quad bounds (rect g))) [
          | inl here ↦ rw here (
              add_item-Inserted series bounds true items a b c d item g (held, leaf, quads)
                (at, numeric, inside))
          | inr (q, there) ↦
              let r = quad_bounds bounds q in
              let inner = quad_bounds-choose_quad laws bounds (rect g) q inside there in
              let (a', b', c', d', run, quads', gains) =
                on_quad-Inserted series bounds q (λ n. below n r (rect g) item) item true items a b
                  c d (λ n e p. inserts r n item g e p (at, numeric, inner)) quads in
              let held' = Holds-gain series bounds item _ _ gains held (g, at, (numeric, inside)) in
              (node true items a' b' c' d', rw there run, ((held', λ h. cc, quads'), gains))
        ]

    -- The items that chooseQuad places go to the quads, and the others are kept.
    redistribute-Inserted :
        (bounds : Rect F) (split : Bool) (items : List ℕ) (rest : List ℕ) (a b c d : QNode)
        (nitems : List ℕ)
        → Holds series bounds rest
        → HasQuads series bounds a b c d
        → (a' b' c' d' : QNode) × (kept : List ℕ) × (redistribute series below bounds rest
              (node split items a b c d)
              nitems
            ≡ ok (node split items a' b' c' d', kept))
          × HasQuads series bounds a' b' c' d'
          × ((x : ℕ)
              → count x (contents (node true kept a' b' c' d'))
                ≡ count x rest + count x (contents (node true nitems a b c d)))
    unfolding redistribute
    redistribute-Inserted bounds split items [] a b c d nitems held quads =
        (a, b, c, d, nitems, refl, quads, λ x. omega arith)
    redistribute-Inserted bounds split items (i ∷ rest) a b c d nitems held quads =
        let (g, at, (numeric, inside)) = held i (ground arith) in
        let others : Holds series bounds rest = λ j h. held j (omega arith) in
        elim (Option-cases (choose_quad bounds (rect g))) [
          | inl here ↦
              let grown = nitems ++ (i ∷ []) in
              let (a', b', c', d', left, run, quads', same) =
                redistribute-Inserted bounds split items rest a b c d grown others quads in
              (
                a',
                b',
                c',
                d',
                left,
                rw (at, here) run,
                quads',
                λ x. omega (
                  arith,
                  same x,
                  count-contents x true nitems a b c d,
                  count-contents x true grown a b c d,
                  count-append x nitems (i ∷ []),
                ),
              )
          | inr (q, there) ↦
              let r = quad_bounds bounds q in
              let inner = quad_bounds-choose_quad laws bounds (rect g) q inside there in
              let (a₁, b₁, c₁, d₁, moved, quads₁, gains) =
                on_quad-Inserted series bounds q (λ n. below n r (rect g) i) i split items a b c d
                  (λ n e p. inserts r n i g e p (at, numeric, inner)) quads in
              let (a', b', c', d', left, run, quads', same) =
                redistribute-Inserted bounds split items rest a₁ b₁ c₁ d₁ nitems others quads₁ in
              (
                a',
                b',
                c',
                d',
                left,
                rw (at, there, moved) run,
                quads',
                λ x. omega (
                  arith,
                  same x,
                  gains x,
                  count-contents x split items a b c d,
                  count-contents x split items a₁ b₁ c₁ d₁,
                  count-contents x true nitems a b c d,
                  count-contents x true nitems a₁ b₁ c₁ d₁,
                ),
              )
        ]

  -- Insert never panics; it adds the item and nothing else, and keeps the items in their bounds.
  pub insert-Inserts : (laws : IsOrdered F) (level : ℕ) → Inserts series (insert series level)
  unfolding insert
  insert-Inserts laws level bounds nil item g e placed fits = cc
  insert-Inserts laws zero bounds (node split items a b c d) item g e placed fits =
      add_item-Inserted series bounds split items a b c d item g placed fits
  insert-Inserts laws (suc level) bounds (node true items a b c d) item g e placed fits =
      place-Inserted laws (insert series level) (insert-Inserts laws level) bounds items a b c d
        item g placed fits
  insert-Inserts laws (suc level) bounds (node false items a b c d) item g e (held, leaf, quads)
        fits =
      let below = insert series level in
      let inserts = insert-Inserts laws level in
      elim (Bool-cases (length items == q_max_items)) [
        | inl full ↦
            let own : Holds series bounds items =
              λ i h. held i (omega (arith, count-contents i false items a b c d)) in
            let (a', b', c', d', kept, moved, quads', same) =
              redistribute-Inserted laws below inserts bounds false items items a b c d [] own
                quads in
            let same' = λ (x : ℕ).
              let total : count x (contents (node true kept a' b' c' d'))
                  ≡ count x (contents (node false items a b c d)) =
                omega (
                  arith,
                  same x,
                  count-contents x false items a b c d,
                  count-contents x true [] a b c d,
                ) in
              total in
            let held' = λ (i : ℕ) (h : 0 < count i (contents (node true kept a' b' c' d'))).
              held i (omega (arith, same' i)) in
            let (m, run, (placed, gains)) =
              place-Inserted laws below inserts bounds kept a' b' c' d' item g
                (held', λ h. cc, quads') fits in
            (m, rw (full, moved) run, (placed, λ x. omega (arith, gains x, same' x)))
        | inr room ↦
            rw room
              (add_item-Inserted series bounds false items a b c d item g (held, leaf, quads) fits)
      ]

  -- On a node in whose bounds each of its items lies, insert returns for every item that is a
  -- segment without NaN in the bounds: the tree has that item once more than before and each other
  -- item as often as before, and each item still lies in the bounds of its node.
  pub insert_adds :
      (laws : IsOrdered F) (level : ℕ) (bounds : Rect F) (n : QNode) (item : ℕ) (g : Segment F)
      → n ≡ allocated n
      → IsPlaced series bounds n
      → segment_at series item ≡ ok g
      → IsNumericRect (rect g)
      → contains_rect bounds (rect g) ≡ true
      → Returns
          (λ m.
            IsPlaced series bounds m
            × ((x : ℕ)
                → count x (contents m) ≡ (if x == item then 1 else 0) + count x (contents n)))
          (insert series level n bounds (rect g) item)
  insert_adds laws level bounds n item g full placed at numeric inside =
      insert-Inserts laws level bounds n item g full placed (at, numeric, inside)
