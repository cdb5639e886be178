-- ===== src/QTree/Nearby/Items.antt =====
-- The nearest of the items of a node.
use mathlib.Core.Path.{subst}
use mathlib.Core.List.{append_assoc}
use native.Mathlib.Nat.{add-zero}
use native.Mathlib.Decide.{ℕ_discrete}
use geometry.Prelude.{
  ℕ, ◌+◌, ◌-◌, ◌%◌, ◌^◌, ◌<◌, ◌≡◌, refl, sym, ap, ◌∙◌, ◌⊎◌, inl, inr, Option, none, some, List, [],
  ◌∷◌, ◌++◌, arith,
}
use geometry.Prelude.Tests.{Bool-cases}
use geometry.Prelude.Lists.{length, drop, drop_skip, length-append}
use geometry.Prelude.Counts.{count}
use geometry.Prelude.Sort.{Ascends}
use geometry.Prelude.Run.{ok, Returns}
use geometry.Float.{Float, less, IsNumber}
use geometry.Float.Laws.{IsOrdered}
use geometry.Segment.{Segment, Rect, rect}
use geometry.Rect.Order.{IsNumericRect}
use geometry.Series.{BaseSeries, segment_at}
use geometry.Varint.RoundTrip.{uvarint, read_uvarint-uvarint}
use geometry.Queue.{QueueNode, q_seg}
use geometry.QTree.{nil}
use geometry.QTree.Packed.{deltas}
use geometry.QTree.Nearby.{seg_node, nearer, near_items}
use geometry.QTree.Nearby.Queued.{IsBeyond, Fits}
use geometry.QTree.Nearby.Least.{IsBeyond-least}

module _ {ℓ} {F : Type ℓ} ⦃fl : Float F⦄ (laws : IsOrdered F) (bytes : List ℕ) (Known : ℕ → Type 0)
    (series : BaseSeries F) (to_rect : Rect F → F) (to_segment : Segment F → F)
    (number : (g : Segment F) → IsNumericRect (rect g) → IsNumber (to_segment g)) where
  open laws use {less_asymm}

  -- The index is that of a segment without NaN.
  abbrev pub IsIndex : ℕ → Type ℓ
  IsIndex i =
      (Known i)
      × (i < 2 ^ 63)
      × ((g : Segment F) × (segment_at series i ≡ ok g) × IsNumericRect (rect g))

  -- The node stands for a segment.
  abbrev pub IsNearNode : QueueNode F → Type ℓ
  IsNearNode n =
      (n.kind ≡ q_seg) × Fits bytes Known series to_rect to_segment n nil × IsNumber n.dist

  abbrev pub IsNear : Option (QueueNode F) → Type ℓ
  IsNear none = Unit
  IsNear (some n) = IsNearNode n

  -- No segment of the index is nearer than the node, if there is one.
  abbrev pub BeyondBy : Option (QueueNode F) → ℕ → Type ℓ
  BeyondBy none x = ⊥ × Unit {ℓ}
  BeyondBy (some n) x = IsBeyond bytes Known series to_rect to_segment n.dist x

  seg_node-IsNearNode :
      (g : Segment F) (i : ℕ)
      → segment_at series i ≡ ok g
      → Known i
      → IsNumericRect (rect g)
      → IsNearNode (seg_node g (to_segment g) i)
  seg_node-IsNearNode g i at low numeric = (refl, (refl, at, refl, low), number g numeric)

  seg_node-IsBeyond :
      (g : Segment F) (i : ℕ)
      → segment_at series i ≡ ok g
      → IsBeyond bytes Known series to_rect to_segment (to_segment g) i
  seg_node-IsBeyond g i at h at' =
      let e : h ≡ g = cc in rw e (ground (arith, less_asymm (to_segment g) (to_segment g)))

  -- The nearer of the node so far and a new one is beyond neither.
  nearer_lem :
      (near : Option (QueueNode F)) (g : Segment F) (i : ℕ)
      → segment_at series i ≡ ok g
      → Known i
      → IsNumericRect (rect g)
      → IsNear near
      → IsNearNode (nearer near (seg_node g (to_segment g) i))
        × IsBeyond bytes Known series to_rect to_segment
            (nearer near (seg_node g (to_segment g) i)).dist
            i
        × ((x : ℕ)
            → BeyondBy near x
            → IsBeyond bytes Known series to_rect to_segment
                (nearer near (seg_node g (to_segment g) i)).dist
                x)
  nearer_lem none g i at low numeric v =
      (seg_node-IsNearNode g i at low numeric, seg_node-IsBeyond g i at, λ x h. absurd h.0)
  nearer_lem (some m) g i at low numeric v = elim (Bool-cases (less (to_segment g) m.dist)) [
    | inl closer ↦ rw closer (
      seg_node-IsNearNode g i at low numeric,
      seg_node-IsBeyond g i at,
      λ x h.
          IsBeyond-least laws bytes Known series to_rect to_segment (to_segment g) m.dist x v.2
            (less_asymm (to_segment g) m.dist closer) h,
    )
    | inr farther ↦ rw farther (v, (λ h at'. let e : h ≡ g = cc in rw e farther), λ x h. h)
  ]

  -- The loop over the items ends behind them, with a nearest of them and of the node so far.
  pub near_items-nearest :
      (items : List ℕ) (a last : ℕ) (rest : List ℕ) (near : Option (QueueNode F))
      → Ascends last items
      → last < 2 ^ 63
      → ((i : ℕ) → 0 < count i items → IsIndex i)
      → drop a bytes ≡ deltas last items ++ rest
      → IsNear near
      → Returns
          (λ r.
            (r.1 ≡ some (a + length (deltas last items)))
            × IsNear r.0
            × ((x : ℕ) → (0 < count x items) ⊎ BeyondBy near x → BeyondBy r.0 x))
          (near_items bytes series to_segment (length items) (some a) last near)
  unfolding near_items deltas
  near_items-nearest [] a last rest near up lt known here v = (
    (near, some a),
    refl,
    (rw add-zero refl, v, λ x c. elim c [ inl h ↦ absurd (omega arith) | inr h ↦ h ]),
  )
  near_items-nearest (i ∷ items) a last rest near (le, up) lt known here v =
      let x = (i + 2 ^ 64 - last) % 2 ^ 64 in
      let (low, small, (g, at, numeric)) = known i (ground arith) in
      let here' : drop a bytes ≡ uvarint x ++ (deltas i items ++ rest) =
        here ∙ append_assoc (uvarint x) (deltas i items) rest in
      let back : (x + last) % 2 ^ 64 ≡ i = omega arith in
      let a' = a + length (uvarint x) in
      let read = read_uvarint-uvarint x a bytes (deltas i items ++ rest) (omega arith) here' in
      let n = nearer near (seg_node g (to_segment g) i) in
      let (v', beyond, older) = nearer_lem near g i at low numeric v in
      let ((r, addr), run, (end, near', all)) =
        near_items-nearest items a' i rest (some n) up small (λ j h. known j (omega arith))
          (drop_skip bytes a (uvarint x) here') v' in
      (
        (r, addr),
        rw (read, back, at) run,
        (
          end ∙ ap some (omega (arith, length-append (uvarint x) (deltas i items))),
          near',
          λ y c. elim c [
            | inl inside ↦ elim (ℕ_discrete y i) [
              | yes e ↦ all y (
                  inr
                    (subst (IsBeyond bytes Known series to_rect to_segment n.dist) (sym e) beyond))
              | no e ↦ all y (inl (ground arith))
            ]
            | inr h ↦ all y (inr (older y h))
          ],
        ),
      )
