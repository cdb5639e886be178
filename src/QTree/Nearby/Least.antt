-- ===== src/QTree/Nearby/Least.antt =====
-- Where a segment comes first in the queue, nothing that the queue covers is nearer.
use native.Mathlib.Decide.{dec_lt}
use geometry.Prelude.{ℕ, suc, ◌<◌, ◌≡◌, refl, inl, inr, true, false, some, List, [], ◌∷◌, arith}
use geometry.Prelude.Lists.{get_elem?}
use geometry.Prelude.Counts.{count}
use geometry.Float.{Float, less, IsNumber}
use geometry.Float.Laws.{IsOrdered}
use geometry.Segment.{Segment, Rect, box, rect}
use geometry.Rect.{contains_rect}
use geometry.Series.{BaseSeries}
use geometry.Queue.{QueueNode, QKind, q_rect, q_seg, cmp}
use geometry.Queue.Order.{AllNumbers, le?}
use geometry.QTree.{QNode}
use geometry.QTree.Placed.{contents, IsPlaced-Holds}
use geometry.QTree.Nearby.Queued.{IsBeyond, FitsKind, Backed, IsCovered}

module _ {ℓ} {F : Type ℓ} ⦃fl : Float F⦄ (laws : IsOrdered F) where
  open laws use {less_asymm, less_cotrans}

  -- A node that may stand above another is at most as far.
  le?-dist : (n m : QueueNode F) → le? (some n) (some m) ≡ true → less m.dist n.dist ≡ false
  unfolding cmp
  le?-dist n m h = ground (arith, less_asymm n.dist m.dist)

  module _ (bytes : List ℕ) (Known : ℕ → Type 0) (series : BaseSeries F) (to_rect : Rect F → F)
      (to_segment : Segment F → F) where
    -- What is beyond a distance is beyond each that is at most as far.
    pub IsBeyond-least :
        (d e : F) (x : ℕ)
        → IsNumber e
        → less e d ≡ false
        → IsBeyond bytes Known series to_rect to_segment e x
        → IsBeyond bytes Known series to_rect to_segment d x
    IsBeyond-least d e x number le beyond g at =
        let far = beyond g at in ground (arith, less_cotrans (to_segment g) e d number)

  module _ (bytes : List ℕ) (Known : ℕ → Type 0) (series : BaseSeries F) (to_rect : Rect F → F)
      (to_segment : Segment F → F)
      (bound : (r : Rect F) (g : Segment F)
        → contains_rect r (rect g) ≡ true
        → less (to_segment g) (to_rect r) ≡ false) where
    -- The items of a tree in the queue are beyond the distance of its node.
    tree-IsBeyond :
        (kind : QKind) (n : QueueNode F) (t : QNode) (x : ℕ)
        → FitsKind bytes Known series to_rect to_segment kind n t
        → 0 < count x (contents t)
        → IsBeyond bytes Known series to_rect to_segment n.dist x
    tree-IsBeyond q_seg n t x (e, at, far, low) inside =
        let none_left : count x (contents t) ≡ 0 = rw e refl in absurd (omega arith)
    tree-IsBeyond q_rect n t x (stands, far) inside = λ g at.
        let (h, at', (numeric, contained)) =
          IsPlaced-Holds series (box n.a n.b) t stands.placed x inside in
        let e : h ≡ g = cc in rw (far, ← e) (bound (box n.a n.b) h contained)

    -- Where no node stands below n, all that the queue covers is beyond the distance of n.
    pub covered-IsBeyond :
        (n : QueueNode F) (rest : List (QueueNode F)) (ts : List QNode) (x : ℕ)
        → Backed bytes Known series to_rect to_segment rest ts
        → AllNumbers rest
        → ((c : ℕ) → le? (some n) (get_elem? rest c) ≡ true)
        → IsCovered bytes Known series to_rect to_segment rest ts x
        → IsBeyond bytes Known series to_rect to_segment n.dist x
    covered-IsBeyond n [] [] x backed numbers least (inl here) = absurd (omega arith)
    covered-IsBeyond n [] [] x backed numbers least (inr beaten) = absurd beaten.0
    covered-IsBeyond n [] (t ∷ ts) x backed numbers least covered = absurd backed.0
    covered-IsBeyond n (m ∷ rest) [] x backed numbers least covered = absurd backed.0
    covered-IsBeyond n (m ∷ rest) (t ∷ ts) x (fit, backed) numbers least covered =
        let nearer =
          IsBeyond-least bytes Known series to_rect to_segment n.dist m.dist x (numbers 0)
            (le?-dist n m (least 0)) in
        let others =
          covered-IsBeyond n rest ts x backed (λ c. numbers (suc c)) (λ c. least (suc c)) in
        elim covered [
          | inl here ↦ elim (dec_lt 0 (count x (contents t))) [
            | yes p ↦ nearer (tree-IsBeyond m.kind m t x fit p)
            | no p ↦ others (inl (omega arith))
          ]
          | inr (inl (kind, beaten)) ↦ nearer beaten
          | inr (inr beaten) ↦ others (inr beaten)
        ]
