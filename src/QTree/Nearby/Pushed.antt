-- ===== src/QTree/Nearby/Pushed.antt =====
-- A node at an address leaves what it covers in the queue.
use mathlib.Core.List.{append_assoc}
use geometry.Prelude.{
  ℕ, ◌+◌, ◌^◌, ◌<◌, ◌≡◌, refl, ◌∙◌, ◌⊎◌, inl, inr, false, Option, none, some, List, [], ◌∷◌, ◌++◌,
  arith,
}
use geometry.Prelude.Tests.{◌==◌}
use geometry.Prelude.Lists.{length, drop, drop_skip, drop_piece, length-append}
use geometry.Prelude.Counts.{count}
use geometry.Prelude.Run.{Returns}
use geometry.Float.{Float, IsNumber}
use geometry.Float.Laws.{IsOrdered}
use geometry.Segment.{Segment, Rect, rect}
use geometry.Rect.Order.{IsNumericRect}
use geometry.Series.{BaseSeries}
use geometry.Varint.{append_uvarint}
use geometry.Varint.RoundTrip.{uvarint, read_uvarint-uvarint}
use geometry.Queue.{QueueNode}
use geometry.QTree.{
  Quad, top_left, top_right, bottom_left, bottom_right, QNode, nil, node, quad_bounds,
}
use geometry.QTree.Search.{all_quads}
use geometry.QTree.Placed.{contents, IsPlaced, HasQuads}
use geometry.QTree.Packed.{slot, packed, node_count, node_count-le-length}
use geometry.QTree.Nearby.{rect_node, push_set, push_quads}
use geometry.QTree.Nearby.Queued.{Queued, Stands, push-Queued}
use geometry.QTree.Nearby.Items.{IsNear, BeyondBy}

-- An item of the list, or what was covered before.
abbrev pub With {κ} : (ℕ → Type κ) → List ℕ → ℕ → Type κ
With C items x = (0 < count x items) ⊎ C x

module _ {ℓ} {F : Type ℓ} ⦃fl : Float F⦄ (laws : IsOrdered F) (bytes : List ℕ) (Known : ℕ → Type 0)
    (series : BaseSeries F) (to_rect : Rect F → F) (to_segment : Segment F → F)
    (number : (g : Segment F) → IsNumericRect (rect g) → IsNumber (to_segment g)) where
  abbrev Holding {μ} : List (QueueNode F) → ℕ → (ℕ → Type μ) → Type (ℓ ⊔ μ)
  Holding = Queued bytes Known series to_rect to_segment

  pub Queued-weaken {μ ν} :
      (D : ℕ → Type μ) (E : ℕ → Type ν) (q : List (QueueNode F)) (heavy light : ℕ)
      → Holding q heavy D
      → heavy ≡ light
      → ((x : ℕ) → E x → D x)
      → Holding q light E
  Queued-weaken D E q heavy light v e weaker = record {
    trees = v.trees;
    heap = v.heap;
    numbers = v.numbers;
    backed = v.backed;
    weighs = v.weighs ∙ e;
    covers = λ x c. v.covers x (weaker x c);
  }

  pub push_set-Queued {κ} :
      {C : ℕ → Type κ} (q : List (QueueNode F)) (heavy : ℕ) (near : Option (QueueNode F))
      (items : List ℕ)
      → Holding q heavy C
      → IsNear laws bytes Known series to_rect to_segment number near
      → ((x : ℕ)
          → 0 < count x items
          → BeyondBy laws bytes Known series to_rect to_segment number near x)
      → Returns (λ r. Holding r heavy (With C items)) (push_set q near)
  push_set-Queued {C} q heavy none items v near all = (
    q,
    refl,
    Queued-weaken C (With C items) q heavy heavy v refl
        λ x c. elim c [ inl here ↦ absurd (all x here).0 | inr old ↦ old ],
  )
  push_set-Queued {C} q heavy (some n) items v (kind, fit, number) all =
      let (r, run, v') =
        push-Queued bytes Known series to_rect to_segment laws q heavy n nil v fit number in
      (
        r,
        run,
        Queued-weaken _ (With C items) r _ heavy v' (omega arith)
            λ x c. elim c [ inl here ↦ inl (inr (kind, all x here)) | inr old ↦ inr old ],
      )

module _ {ℓ} {F : Type ℓ} ⦃fl : Float F⦄ (laws : IsOrdered F) (bytes : List ℕ) (Known : ℕ → Type 0)
    (small : length bytes < 2 ^ 64) (series : BaseSeries F) (to_rect : Rect F → F)
    (to_segment : Segment F → F)
    (number : (g : Segment F) → IsNumericRect (rect g) → IsNumber (to_segment g))
    (number_rect : (r : Rect F) → IsNumber (to_rect r)) (bounds : Rect F) where
  -- One quad: an empty one is passed over, and the packed tree of another is put in the queue.
  push_quad-Queued {κ} :
      {C : ℕ → Type κ} (i : Quad) (n : QNode) (is : List Quad) (a heavy : ℕ) (rest : List ℕ)
      (q : List (QueueNode F))
      → Queued bytes Known series to_rect to_segment q heavy C
      → IsPlaced series (quad_bounds bounds i) n
      → ((x : ℕ) → 0 < count x (contents n) → Known x)
      → drop a bytes ≡ slot n (packed n) ++ rest
      → (r : List (QueueNode F)) × (push_quads bytes bounds to_rect (i ∷ is) (some a) q
          ≡ push_quads bytes bounds to_rect is (some (a + length (slot n (packed n)))) r)
        × Queued bytes Known series to_rect to_segment r
            (node_count n + heavy)
            (With C (contents n))
  unfolding push_quads append_uvarint
  push_quad-Queued {C} i nil is a heavy rest q v placed inside here = (
    q,
    rw (read_uvarint-uvarint 0 a bytes rest (omega arith) here) refl,
    Queued-weaken laws bytes Known series to_rect to_segment number C (With C []) q heavy
        (0 + heavy) v (omega arith) λ x c. elim c [ inl h ↦ absurd (omega arith) | inr old ↦ old ],
  )
  push_quad-Queued {C} i (node split items qa qb qc qd) is a heavy rest q v placed inside here =
      let n = node split items qa qb qc qd in
      let size = length (packed n) in
      let here' : drop a bytes ≡ uvarint size ++ (packed n ++ rest) =
        here ∙ append_assoc (uvarint size) (packed n) rest in
      let x = a + length (uvarint size) in
      let within = drop_skip bytes a (uvarint size) here' in
      let fits = drop_piece bytes x (packed n) rest within in
      let some_bytes : (size == 0) ≡ false = ground (arith, node_count-le-length n) in
      let read = read_uvarint-uvarint size a bytes (packed n ++ rest) (omega arith) here' in
      let end : a + length (uvarint size ++ packed n) ≡ x + size =
        omega (arith, length-append (uvarint size) (packed n)) in
      let r = quad_bounds bounds i in
      let stands : Stands bytes Known series to_rect to_segment n x r = record {
        rest = rest;
        here = within;
        full = omega arith;
        placed = placed;
        inside = inside;
      } in
      let (grown, pushed, v') =
        push-Queued bytes Known series to_rect to_segment laws q heavy (rect_node r (to_rect r) x) n
          v (stands, refl) (number_rect r) in
      (
        grown,
        rw (read, some_bytes, pushed, end) refl,
        Queued-weaken laws bytes Known series to_rect to_segment number _ (With C (contents n))
            grown _ _ v' refl λ y c. elim c [ inl h ↦ inl (inl h) | inr old ↦ inr old ],
      )

  -- The four quads.
  pub push_quads-Queued {κ} :
      {C : ℕ → Type κ} (a heavy : ℕ) (rest : List ℕ) (qa qb qc qd : QNode) (q : List (QueueNode F))
      → Queued bytes Known series to_rect to_segment q heavy C
      → HasQuads series bounds qa qb qc qd
      → ((x : ℕ)
          → 0
            < count x (contents qa)
              + count x (contents qb)
              + count x (contents qc)
              + count x (contents qd)
          → Known x)
      → drop a bytes
        ≡ slot qa (packed qa)
          ++ (slot qb (packed qb) ++ (slot qc (packed qc) ++ (slot qd (packed qd) ++ rest)))
      → Returns
          (λ r.
            Queued bytes Known series to_rect to_segment r
              (node_count qd + (node_count qc + (node_count qb + (node_count qa + heavy))))
              (With (With (With (With C (contents qa)) (contents qb)) (contents qc)) (contents qd)))
          (push_quads bytes bounds to_rect all_quads (some a) q)
  unfolding push_quads
  push_quads-Queued a heavy rest qa qb qc qd q v (pa, pb, pc, pd) inside here =
      let at_b = drop_skip bytes a (slot qa (packed qa)) here in
      let b = a + length (slot qa (packed qa)) in
      let at_c = drop_skip bytes b (slot qb (packed qb)) at_b in
      let c = b + length (slot qb (packed qb)) in
      let at_d = drop_skip bytes c (slot qc (packed qc)) at_c in
      let d = c + length (slot qc (packed qc)) in
      let (q1, run1, v1) =
        push_quad-Queued top_left qa (top_right ∷ bottom_left ∷ bottom_right ∷ []) a heavy _ q v pa
          (λ x h. inside x (omega arith)) here in
      let (q2, run2, v2) =
        push_quad-Queued top_right qb (bottom_left ∷ bottom_right ∷ []) b _ _ q1 v1 pb
          (λ x h. inside x (omega arith)) at_b in
      let (q3, run3, v3) =
        push_quad-Queued bottom_left qc (bottom_right ∷ []) c _ _ q2 v2 pc
          (λ x h. inside x (omega arith)) at_c in
      let (q4, run4, v4) =
        push_quad-Queued bottom_right qd [] d _ rest q3 v3 pd (λ x h. inside x (omega arith))
          at_d in
      (q4, run1 ∙ run2 ∙ run3 ∙ run4, v4)
