-- ===== src/QTree/Grown.antt =====
-- The parts of qNode.insert: a call on a quad, and an item that is added to a node.
use mathlib.Core.Path.{subst}
use native.Mathlib.Decide.{ℕ_discrete}
use geometry.Prelude.{sym, ℕ, ◌+◌, ◌≡◌, refl, Bool, true, List, [], ◌∷◌, ◌++◌, arith}
use geometry.Prelude.Tests.{◌==◌, if◌then◌else◌}
use geometry.Prelude.Counts.{count, count-append}
use geometry.Prelude.Run.{Run, ok, Returns}
use geometry.Float.{Float}
use geometry.Segment.{Segment, Rect, rect}
use geometry.Rect.{contains_rect}
use geometry.Rect.Order.{IsNumericRect}
use geometry.Series.{BaseSeries, segment_at}
use geometry.QTree.{
  Quad, top_left, top_right, bottom_left, bottom_right, QNode, nil, node, add_item, allocated,
  on_quad, quad_bounds, Insert,
}
use geometry.QTree.Placed.{contents, count-contents, IsHeld, Holds, IsPlaced, HasQuads}

allocated_again : (n : QNode) → allocated n ≡ allocated (allocated n)
allocated_again nil = refl
allocated_again (node split items a b c d) = refl

contents-allocated : (n : QNode) → contents (allocated n) ≡ contents n
contents-allocated nil = refl
contents-allocated (node split items a b c d) = refl

-- The second tree holds what the first holds, and the item once more.
abbrev pub Gains : ℕ → QNode → QNode → Type 0
Gains item n m =
    (x : ℕ) → count x (contents m) ≡ (if x == item then 1 else 0) + count x (contents n)

module _ {ℓ} {F : Type ℓ} ⦃fl : Float F⦄ (series : BaseSeries F) where
  abbrev pub Inserted : Rect F → ℕ → QNode → QNode → Type ℓ
  Inserted bounds item n m = IsPlaced series bounds m × Gains item n m

  -- The item is the segment, which has no NaN and lies in the bounds.
  abbrev pub Fits : Rect F → ℕ → Segment F → Type ℓ
  Fits bounds item g =
      (segment_at series item ≡ ok g)
      × IsNumericRect (rect g)
      × (contains_rect bounds (rect g) ≡ true)

  -- What insert does at one depth.
  abbrev pub Inserts : Insert F → Type ℓ
  Inserts below =
      (bounds : Rect F) (n : QNode) (item : ℕ) (g : Segment F)
      → (n ≡ allocated n)
      → IsPlaced series bounds n
      → Fits bounds item g
      → Returns (Inserted bounds item n) (below n bounds (rect g) item)

  allocated-IsPlaced :
      (bounds : Rect F) (n : QNode)
      → IsPlaced series bounds n
      → IsPlaced series bounds (allocated n)
  allocated-IsPlaced bounds nil h =
      (λ i h. absurd (omega arith), λ _. (refl, refl, refl, refl), (tt, tt, tt, tt))
  allocated-IsPlaced bounds (node split items a b c d) h = h

  call_allocated :
      (bounds : Rect F) (f : QNode → Run QNode) (item : ℕ) (n : QNode)
      → ((m : QNode)
          → m ≡ allocated m
          → IsPlaced series bounds m
          → Returns (Inserted bounds item m) (f m))
      → IsPlaced series bounds n
      → Returns (Inserted bounds item n) (f (allocated n))
  call_allocated bounds f item n call h =
      let (m, run, (placed, gains)) =
        call (allocated n) (allocated_again n) (allocated-IsPlaced bounds n h) in
      (m, run, (placed, λ x. rw contents-allocated at (gains x)))

  -- A call on a quad changes that quad alone.
  pub on_quad-Inserted :
      (bounds : Rect F) (q : Quad) (f : QNode → Run QNode) (item : ℕ) (split : Bool)
      (items : List ℕ) (a b c d : QNode)
      → ((n : QNode)
          → n ≡ allocated n
          → IsPlaced series (quad_bounds bounds q) n
          → Returns (Inserted (quad_bounds bounds q) item n) (f n))
      → HasQuads series bounds a b c d
      → (a' b' c' d' : QNode) × (on_quad q f (node split items a b c d)
          ≡ ok (node split items a' b' c' d'))
        × HasQuads series bounds a' b' c' d'
        × Gains item (node split items a b c d) (node split items a' b' c' d')
  on_quad-Inserted bounds top_left f item split items a b c d call quads =
      let (m, run, (placed, gains)) =
        call_allocated (quad_bounds bounds top_left) f item a call quads.0 in
      (
        m,
        b,
        c,
        d,
        rw run,
        (placed, quads.1, quads.2, quads.3),
        λ x. omega (
          arith,
          gains x,
          count-contents x split items a b c d,
          count-contents x split items m b c d,
        ),
      )
  on_quad-Inserted bounds top_right f item split items a b c d call quads =
      let (m, run, (placed, gains)) =
        call_allocated (quad_bounds bounds top_right) f item b call quads.1 in
      (
        a,
        m,
        c,
        d,
        rw run,
        (quads.0, placed, quads.2, quads.3),
        λ x. omega (
          arith,
          gains x,
          count-contents x split items a b c d,
          count-contents x split items a m c d,
        ),
      )
  on_quad-Inserted bounds bottom_left f item split items a b c d call quads =
      let (m, run, (placed, gains)) =
        call_allocated (quad_bounds bounds bottom_left) f item c call quads.2 in
      (
        a,
        b,
        m,
        d,
        rw run,
        (quads.0, quads.1, placed, quads.3),
        λ x. omega (
          arith,
          gains x,
          count-contents x split items a b c d,
          count-contents x split items a b m d,
        ),
      )
  on_quad-Inserted bounds bottom_right f item split items a b c d call quads =
      let (m, run, (placed, gains)) =
        call_allocated (quad_bounds bounds bottom_right) f item d call quads.3 in
      (
        a,
        b,
        c,
        m,
        rw run,
        (quads.0, quads.1, quads.2, placed),
        λ x. omega (
          arith,
          gains x,
          count-contents x split items a b c d,
          count-contents x split items a b c m,
        ),
      )

  -- One item more in the bounds.
  pub Holds-gain :
      (bounds : Rect F) (item : ℕ) (xs ys : List ℕ)
      → ((x : ℕ) → count x ys ≡ (if x == item then 1 else 0) + count x xs)
      → Holds series bounds xs
      → IsHeld series bounds item
      → Holds series bounds ys
  Holds-gain bounds item xs ys gains held new i h = elim (ℕ_discrete i item) [
    | yes e ↦ subst (IsHeld series bounds) (sym e) new
    | no e ↦ held i (ground (arith, gains i))
  ]

  pub add_item-Inserted :
      (bounds : Rect F) (split : Bool) (items : List ℕ) (a b c d : QNode) (item : ℕ) (g : Segment F)
      → IsPlaced series bounds (node split items a b c d)
      → Fits bounds item g
      → Returns
          (Inserted bounds item (node split items a b c d))
          (add_item (node split items a b c d) item)
  add_item-Inserted bounds split items a b c d item g (held, leaf, quads) (at, numeric, inside) =
      let grown = items ++ (item ∷ []) in
      let gains : Gains item (node split items a b c d) (node split grown a b c d) = λ x. omega (
        arith,
        count-contents x split items a b c d,
        count-contents x split grown a b c d,
        count-append x items (item ∷ []),
      ) in
      let held' = Holds-gain bounds item _ _ gains held (g, at, (numeric, inside)) in
      (node split grown a b c d, refl, ((held', leaf, quads), gains))
