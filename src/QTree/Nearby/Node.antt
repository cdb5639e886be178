-- ===== src/QTree/Nearby/Node.antt =====
-- A whole node at an address leaves what it covers in the queue.
use mathlib.Core.List.{append_assoc, append-nil}
use native.Mathlib.Decide.{dec_lt}
use geometry.Prelude.{
  ℕ, suc, ◌+◌, ◌^◌, ◌<◌, ◌≡◌, refl, ◌∙◌, inl, inr, true, false, none, some, List, ◌∷◌, ◌++◌, arith,
}
use geometry.Prelude.Tests.{◌==◌, if◌then◌else◌}
use geometry.Prelude.Lists.{length, drop, drop-cons, drop_skip, drop_piece}
use geometry.Prelude.Counts.{count}
use geometry.Prelude.Sort.{sort_ints, sort_ints-Ascends, sort_ints-SameItems}
use geometry.Prelude.Run.{ok, Returns, ◌>>=◌}
use geometry.Float.{Float, IsNumber}
use geometry.Float.Laws.{IsOrdered}
use geometry.Segment.{Segment, Rect, rect}
use geometry.Rect.Order.{IsNumericRect}
use geometry.Series.{BaseSeries}
use geometry.Varint.{byte_at}
use geometry.Varint.RoundTrip.{uvarint, read_uvarint-uvarint}
use geometry.Queue.{QueueNode}
use geometry.QTree.{QNode, nil, node}
use geometry.QTree.Search.{all_quads}
use geometry.QTree.Placed.{contents, count-contents, IsPlaced-Holds}
use geometry.QTree.Packed.{deltas, slot, packed, node_count, length-deltas}
use geometry.QTree.Nearby.{push_quads, push_node}
use geometry.QTree.Nearby.Queued.{Queued, Stands}
use geometry.QTree.Nearby.Items.{IsIndex, near_items-nearest}
use geometry.QTree.Nearby.Pushed.{With, Queued-weaken, push_set-Queued, push_quads-Queued}

module _ {ℓ} {F : Type ℓ} ⦃fl : Float F⦄ (laws : IsOrdered F) (bytes : List ℕ) (Known : ℕ → Type 0)
    (small : length bytes < 2 ^ 64) (series : BaseSeries F) (to_rect : Rect F → F)
    (to_segment : Segment F → F)
    (number : (g : Segment F) → IsNumericRect (rect g) → IsNumber (to_segment g))
    (number_rect : (r : Rect F) → IsNumber (to_rect r))
    (short : (x : ℕ) → Known x → x < 2 ^ 63) where
  -- An item of a node is one of its own, or an item of a quad.
  spread {κ} :
      (C : ℕ → Type κ) (items : List ℕ) (qa qb qc qd : QNode) (x : ℕ)
      → With C (contents (node true items qa qb qc qd)) x
      → With
          (With (With (With (With C items) (contents qa)) (contents qb)) (contents qc))
          (contents qd)
          x
  spread C items qa qb qc qd x (inr old) = inr (inr (inr (inr (inr old))))
  spread C items qa qb qc qd x (inl h) = elim (dec_lt 0 (count x (contents qd))) [
    | yes d ↦ inl d
    | no not_d ↦ elim (dec_lt 0 (count x (contents qc))) [
      | yes c ↦ inr (inl c)
      | no not_c ↦ elim (dec_lt 0 (count x (contents qb))) [
        | yes b ↦ inr (inr (inl b))
        | no not_b ↦ elim (dec_lt 0 (count x (contents qa))) [
          | yes a ↦ inr (inr (inr (inl a)))
          | no not_a ↦
              inr (inr (inr (inr (inl (omega (arith, count-contents x true items qa qb qc qd))))))
        ]
      ]
    ]
  ]

  -- The head of a node: the nearest of its items goes to the queue.
  push_node-head {κ} :
      {C : ℕ → Type κ} (bounds : Rect F) (a heavy : ℕ) (items tail : List ℕ)
      (q : List (QueueNode F))
      → Queued bytes Known series to_rect to_segment q heavy C
      → ((i : ℕ) → 0 < count i items → IsIndex laws bytes Known series to_rect to_segment number i)
      → (let sorted = sort_ints items in
          drop a bytes ≡ uvarint (length sorted) ++ (deltas 0 sorted ++ tail))
      → (x : ℕ) × (grown : List (QueueNode F)) × (drop x bytes ≡ tail)
        × Queued bytes Known series to_rect to_segment grown heavy (With C items)
        × (push_node bytes (some a) series bounds to_rect to_segment q ≡ (
            byte_at bytes (some x) >>= λ flag.
            if flag == 1
            then push_quads bytes bounds to_rect all_quads (some (x + 1)) grown
            else ok grown))
  unfolding push_node
  push_node-head {C} bounds a heavy items tail q v known here =
      let sorted = sort_ints items in
      let n = length sorted in
      let first = a + length (uvarint n) in
      let at_items = drop_skip bytes a (uvarint n) here in
      let fits = drop_piece bytes first (deltas 0 sorted) tail at_items in
      let read =
        read_uvarint-uvarint n a bytes (deltas 0 sorted ++ tail)
          (omega (arith, length-deltas 0 sorted)) here in
      let ((near, addr), loop, (end, v', all)) =
        near_items-nearest laws bytes Known series to_rect to_segment number sorted first 0 tail
          none (sort_ints-Ascends items) (omega arith)
          (λ i h. known i (omega (arith, sort_ints-SameItems items i))) at_items tt in
      let (grown, pushed, v'') =
        push_set-Queued laws bytes Known series to_rect to_segment number q heavy near items v v'
          (λ x h. all x (inl (omega (arith, sort_ints-SameItems items x)))) in
      (
        first + length (deltas 0 sorted),
        grown,
        drop_skip bytes first (deltas 0 sorted) at_items,
        v'',
        rw (read, loop, pushed, end) refl,
      )

  -- The items of a tree that lies in its bounds are indices.
  items-IsIndex :
      (t : QNode) (bounds : Rect F) (a : ℕ)
      → Stands bytes Known series to_rect to_segment t a bounds
      → (i : ℕ) → 0 < count i (contents t)
      → IsIndex laws bytes Known series to_rect to_segment number i
  items-IsIndex t bounds a stands i inside =
      let (g, at, (numeric, _)) = IsPlaced-Holds series bounds t stands.placed i inside in
      let low = stands.inside i inside in (low, omega (arith, short i low), (g, at, numeric))

  -- A node in the stead of the queue's: the weight is less by one, and what it holds is covered.
  pub push_node-Queued {κ} :
      {C : ℕ → Type κ} (t : QNode) (bounds : Rect F) (a heavy : ℕ) (q : List (QueueNode F))
      → Queued bytes Known series to_rect to_segment q heavy C
      → Stands bytes Known series to_rect to_segment t a bounds
      → Returns
          (λ r.
            (light : ℕ) × (suc light ≡ node_count t + heavy)
            × Queued bytes Known series to_rect to_segment r light (With C (contents t)))
          (push_node bytes (some a) series bounds to_rect to_segment q)
  unfolding packed
  push_node-Queued nil bounds a heavy q v stands = absurd (omega (arith, stands.full))
  push_node-Queued {C} (node false items qa qb qc qd) bounds a heavy q v stands =
      let own = λ (i : ℕ) (h : 0 < count i items).
        items-IsIndex (node false items qa qb qc qd) bounds a stands i
          (omega (arith, count-contents i false items qa qb qc qd)) in
      let (x, grown, at, v', run) =
        push_node-head bounds a heavy items (0 ∷ stands.rest) q v own
          (stands.here ∙ simp append_assoc) in
      let (ea, eb, ec, ed) = stands.placed.1 refl in
      (
        grown,
        rw (run, (drop-cons bytes x at).0) refl,
        (
          heavy,
          omega arith,
          Queued-weaken laws bytes Known series to_rect to_segment number (With C items)
              (With C (contents (node false items qa qb qc qd))) grown heavy heavy v' refl
              λ y c. elim c [
                | inl h ↦ inl (rw (ea, eb, ec, ed, append-nil) at h)
                | inr old ↦ inr old
              ],
        ),
      )
  push_node-Queued {C} (node true items qa qb qc qd) bounds a heavy q v stands =
      let own = λ (i : ℕ) (h : 0 < count i items).
        items-IsIndex (node true items qa qb qc qd) bounds a stands i
          (omega (arith, count-contents i true items qa qb qc qd)) in
      let quads =
        slot qa (packed qa)
        ++ (slot qb (packed qb) ++ (slot qc (packed qc) ++ (slot qd (packed qd) ++ stands.rest))) in
      let (x, grown, at, v', run) =
        push_node-head bounds a heavy items (1 ∷ quads) q v own (stands.here ∙ simp append_assoc) in
      let (flag, at_quads) = drop-cons bytes x at in
      let (r, run', v'') =
        push_quads-Queued laws bytes Known small series to_rect to_segment number number_rect bounds
          (x + 1) heavy stands.rest qa qb qc qd grown v' stands.placed.2
          (λ y h. stands.inside y (omega (arith, count-contents y true items qa qb qc qd)))
          at_quads in
      (
        r,
        rw (run, flag) run',
        (
          node_count qd + (node_count qc + (node_count qb + (node_count qa + heavy))),
          omega arith,
          Queued-weaken laws bytes Known series to_rect to_segment number _
              (With C (contents (node true items qa qb qc qd))) r _ _ v'' refl
              (spread C items qa qb qc qd),
        ),
      )
