-- ===== src/QTree/Nearby/Finds.antt =====
-- The outer loop of qCompressNearbySegment.
use mathlib.Core.Path.{subst}
use geometry.Prelude.{
  ℕ, zero, suc, ◌+◌, ◌^◌, ◌<◌, ◌≤◌, ◌≡◌, refl, sym, ap, ◌∙◌, ◌⊎◌, inl, inr, true, false, none, some,
  List, [], ◌∷◌, arith,
}
use geometry.Prelude.Lists.{length}
use geometry.Prelude.Counts.{count}
use geometry.Prelude.Run.{Run, ok, Returns, ◌>>=◌}
use geometry.Float.{Float, less, IsNumber}
use geometry.Float.Laws.{IsOrdered}
use geometry.Segment.{Segment, Rect, seg, box, rect}
use geometry.Rect.{contains_rect}
use geometry.Rect.Order.{IsNumericRect}
use geometry.Series.{BaseSeries, segment_at}
use geometry.Series.Process.{zero_point}
use geometry.Queue.{QueueNode, QKind, q_rect, q_seg, pop}
use geometry.Queue.Order.{AllNumbers}
use geometry.QTree.{QNode}
use geometry.QTree.Placed.{contents}
use geometry.QTree.Packed.{node_count}
use geometry.QTree.Nearby.{Nearest, q_compress_nearby_segment}
use geometry.QTree.Nearby.Queued.{
  weight, IsBeyond, Queued, IsCovered, Stands, FitsKind, Popped, pop-Queued, Backed,
}
use geometry.QTree.Nearby.Least.{covered-IsBeyond}
use geometry.QTree.Nearby.Pushed.{With}
use geometry.QTree.Nearby.Node.{push_node-Queued}

module _ {ℓ} {F : Type ℓ} ⦃fl : Float F⦄ (laws : IsOrdered F) (bytes : List ℕ) (Known : ℕ → Type 0)
    (small : length bytes < 2 ^ 64) (series : BaseSeries F) (to_rect : Rect F → F)
    (to_segment : Segment F → F)
    (number : (g : Segment F) → IsNumericRect (rect g) → IsNumber (to_segment g))
    (number_rect : (r : Rect F) → IsNumber (to_rect r)) (short : (x : ℕ) → Known x → x < 2 ^ 63)
    (bound : (r : Rect F) (g : Segment F)
      → contains_rect r (rect g) ≡ true
      → less (to_segment g) (to_rect r) ≡ false) where
  -- The result is a segment of the series with its index, which is known, and distance, and no segment
  -- of these indices is nearer; or there are no such indices.
  abbrev pub Finds {κ} : (ℕ → Type κ) → Nearest F → Type (ℓ ⊔ κ)
  Finds C r =
      ((r.idx ≡ none) × (r.dist ≡ fl.nan) × ((x : ℕ) → C x → ⊥))
      ⊎ ((i : ℕ) × (Known i)
          × (r.idx ≡ some i)
          × (segment_at series i ≡ ok r.nearest)
          × (r.dist ≡ to_segment r.nearest)
          × ((x : ℕ) → C x → IsBeyond bytes Known series to_rect to_segment r.dist x))

  Finds-weaken {κ μ} :
      (C : ℕ → Type κ) (D : ℕ → Type μ) (r : Nearest F)
      → ((x : ℕ) → D x → C x)
      → Finds C r
      → Finds D r
  Finds-weaken C D r weaker (inl (missing, nan, empty)) =
      inl (missing, nan, λ x d. empty x (weaker x d))
  Finds-weaken C D r weaker (inr (i, low, found, at, far, least)) =
      inr (i, low, found, at, far, λ x d. least x (weaker x d))

  -- the loop after a node has been popped
  abbrev resume : ℕ → QueueNode F → List (QueueNode F) → QKind → Run (Nearest F)
  resume fuel n left q_seg = ok (record { nearest = seg n.a n.b; idx = some n.pos; dist = n.dist })
  resume fuel n left q_rect =
      q_compress_nearby_segment fuel bytes (some n.pos) series (box n.a n.b) to_rect to_segment left

  -- What the loop is to do with this fuel, from the bytes of a tree.
  abbrev Loops : ℕ → Type ℓ
  Loops fuel =
      (t : QNode) (bounds : Rect F) (a heavy : ℕ) (q rest : List (QueueNode F)) (ts : List QNode)
      → Queued bytes Known series to_rect to_segment q heavy
          (IsCovered bytes Known series to_rect to_segment rest ts)
      → Stands bytes Known series to_rect to_segment t a bounds
      → node_count t + heavy ≤ fuel
      → Returns
          (Finds (With (IsCovered bytes Known series to_rect to_segment rest ts) (contents t)))
          (q_compress_nearby_segment fuel bytes (some a) series bounds to_rect to_segment q)

  resume-Finds {κ} :
      {C : ℕ → Type κ} (fuel heavy : ℕ) (n : QueueNode F) (rest left : List (QueueNode F))
      (kind : QKind)
      → n.kind ≡ kind
      → Loops fuel
      → heavy ≤ fuel
      → AllNumbers (n ∷ rest)
      → Popped bytes Known series to_rect to_segment laws C heavy n rest left
      → Returns (Finds C) (resume fuel n left kind)
  resume-Finds {C} fuel heavy n rest left q_seg e loops enough numbers v =
      let fit = subst (λ k. FitsKind bytes Known series to_rect to_segment k n v.tree) e v.fit in
      let (no_tree, at, far, low) = fit in
      (
        record { nearest = seg n.a n.b; idx = some n.pos; dist = n.dist },
        refl,
        inr (
          n.pos,
          low,
          refl,
          at,
          far,
          λ x c. elim (v.covers x c) [
            | inl (inl here) ↦
                let none_left : count x (contents v.tree) ≡ 0 = rw no_tree refl in
                absurd (omega arith)
            | inl (inr beaten) ↦ beaten.1
            | inr covered ↦
                covered-IsBeyond laws bytes Known series to_rect to_segment bound n rest v.others x
                  v.backed (λ c. numbers (suc c)) v.least covered
          ],
        ),
      )
  resume-Finds {C} fuel heavy n rest left q_rect e loops enough numbers v =
      let fit = subst (λ k. FitsKind bytes Known series to_rect to_segment k n v.tree) e v.fit in
      let (stands, far) = fit in
      let (r, run, finds) =
        loops v.tree (box n.a n.b) n.pos (weight v.others) left rest v.others v.queued stands
          (omega (arith, v.weighs)) in
      (
        r,
        run,
        Finds-weaken
            (With (IsCovered bytes Known series to_rect to_segment rest v.others) (contents v.tree))
            C r
            (λ x c. elim (v.covers x c) [
              | inl (inl here) ↦ inl here
              | inl (inr beaten) ↦ let clash : q_seg ≡ q_rect = sym beaten.0 ∙ e in cc
              | inr covered ↦ inr covered
            ])
            finds,
      )

  pop_nothing : pop {F = F} [] ≡ ok (none, [])
  unfolding pop
  pop_nothing = refl

  nothing_covered :
      (ts : List QNode) (x : ℕ)
      → Backed bytes Known series to_rect to_segment [] ts
      → IsCovered bytes Known series to_rect to_segment [] ts x
      → ⊥
  nothing_covered [] x backed (inl here) = absurd (omega arith)
  nothing_covered [] x backed (inr beaten) = beaten.0
  nothing_covered (t ∷ ts) x backed covered = backed.0

  -- What is popped, and what is done with it.
  pop-Finds {κ} :
      {C : ℕ → Type κ} (fuel heavy : ℕ) (q : List (QueueNode F))
      → Loops fuel
      → heavy ≤ fuel
      → Queued bytes Known series to_rect to_segment q heavy C
      → Returns (Finds C) (
          pop q >>= λ (popped, left). elim popped [
            | none ↦ ok (record { nearest = seg zero_point zero_point; idx = none; dist = fl.nan })
            | some n ↦ resume fuel n left n.kind
          ])
  pop-Finds {C} fuel heavy [] loops enough v = rw pop_nothing (
    record { nearest = seg zero_point zero_point; idx = none; dist = fl.nan },
    refl,
    inl (refl, refl, λ x c. nothing_covered v.trees x v.backed (v.covers x c)),
  )
  pop-Finds {C} fuel heavy (n ∷ rest) loops enough v =
      let ((popped, left), run, (first, popped_v)) =
        pop-Queued bytes Known series to_rect to_segment laws n rest heavy v in
      let run' : pop (n ∷ rest) ≡ ok (some n, left) = run ∙ ap (λ o. ok (o, left)) first in
      rw run' (resume-Finds fuel heavy n rest left n.kind refl loops enough v.numbers popped_v)

  -- From the address where the bytes of a tree stand, the search returns a nearest of the segments
  -- of the tree and of what the queue covers.
  q_compress_nearby_segment-Loops : (fuel : ℕ) → Loops fuel
  unfolding q_compress_nearby_segment
  q_compress_nearby_segment-Loops zero t bounds a heavy q rest ts v stands enough =
      absurd (omega (arith, stands.full))
  q_compress_nearby_segment-Loops (suc fuel) t bounds a heavy q rest ts v stands enough =
      let (grown, run, (light, less_by_one, v')) =
        push_node-Queued laws bytes Known small series to_rect to_segment number number_rect short t
          bounds a heavy q v stands in
      rw run (pop-Finds fuel light grown (q_compress_nearby_segment-Loops fuel) (omega arith) v')

  -- The search of a whole packed tree, with the queue empty.
  pub q_compress_nearby_segment-Finds :
      (fuel : ℕ) (t : QNode) (bounds : Rect F) (a : ℕ)
      → Stands bytes Known series to_rect to_segment t a bounds
      → node_count t ≤ fuel
      → Returns
          (Finds (λ x. 0 < count x (contents t)))
          (q_compress_nearby_segment fuel bytes (some a) series bounds to_rect to_segment [])
  q_compress_nearby_segment-Finds fuel t bounds a stands enough =
      let covered = IsCovered bytes Known series to_rect to_segment [] [] in
      let start : Queued bytes Known series to_rect to_segment [] 0 covered = record {
        trees = [];
        heap = λ c p. refl;
        numbers = λ c. refl;
        backed = tt;
        weighs = refl;
        covers = λ x c. c;
      } in
      let (r, run, finds) =
        q_compress_nearby_segment-Loops fuel t bounds a 0 [] [] [] start stands (omega arith) in
      (
        r,
        run,
        Finds-weaken (With covered (contents t)) (λ x. 0 < count x (contents t)) r (λ x. inl) finds,
      )

module _ {ℓ} {F : Type ℓ} ⦃fl : Float F⦄ (laws : IsOrdered F) (bytes : List ℕ) (total : ℕ)
    (small : length bytes < 2 ^ 64) (series : BaseSeries F) (to_rect : Rect F → F)
    (to_segment : Segment F → F)
    (number : (g : Segment F) → IsNumericRect (rect g) → IsNumber (to_segment g))
    (number_rect : (r : Rect F) → IsNumber (to_rect r)) (short : total ≤ 2 ^ 63)
    (bound : (r : Rect F) (g : Segment F)
      → contains_rect r (rect g) ≡ true
      → less (to_segment g) (to_rect r) ≡ false) where
  -- below `total`, and in the tree
  abbrev IsItem : QNode → ℕ → Type 0
  IsItem t i = (i < total) × (0 < count i (contents t))

  -- From the address where a tree of segments of a series is packed, and with the queue empty, the
  -- search returns the index of one of the items of the tree, which is below `total`, the segment of
  -- the series at that index, and its distance, and no item of the tree is nearer. It ends if the
  -- fuel is the number of the tree's nodes and items. The distances must be numbers, and no segment
  -- nearer than a rectangle that contains its rectangle.
  pub q_compress_nearby_segment_least :
      (fuel : ℕ) (t : QNode) (bounds : Rect F) (a x : ℕ) (g : Segment F)
      → Stands bytes (λ i. i < total) series to_rect to_segment t a bounds
      → node_count t ≤ fuel
      → 0 < count x (contents t)
      → segment_at series x ≡ ok g
      → Returns
          (λ r.
            (i : ℕ) × (i < total)
            × (0 < count i (contents t))
            × (r.idx ≡ some i)
            × (segment_at series i ≡ ok r.nearest)
            × (r.dist ≡ to_segment r.nearest)
            × (less (to_segment g) r.dist ≡ false))
          (q_compress_nearby_segment fuel bytes (some a) series bounds to_rect to_segment [])
  q_compress_nearby_segment_least fuel t bounds a x g stands enough inside at =
      let stands' : Stands bytes (IsItem t) series to_rect to_segment t a bounds = record {
        rest = stands.rest;
        here = stands.here;
        full = stands.full;
        placed = stands.placed;
        inside = λ i h. (stands.inside i h, h);
      } in
      let (r, run, finds) =
        q_compress_nearby_segment-Finds laws bytes (IsItem t) small series to_rect to_segment number
          number_rect (λ i h. omega (arith, h.0)) bound fuel t bounds a stands' enough in
      elim finds [
        | inl (missing, nan, empty) ↦ absurd (empty x inside)
        | inr (i, (low, item), found, here, far, least) ↦
            (r, run, (i, low, item, found, here, far, least x inside g at))
      ]
