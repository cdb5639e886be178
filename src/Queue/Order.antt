-- ===== src/Queue/Order.antt =====
-- The order of the queue's nodes, and the heap order of a slice of them.
use native.Mathlib.Decide.{dec_lt}
use geometry.Prelude.{
  ℕ, ◌-◌, ◌/◌, ◌<◌, ◌≡◌, refl, zero, suc, Bool, true, false, not, Option, none, some, List, arith,
}
use geometry.Prelude.Lists.{length, get_elem?, get_elem?-some}
use geometry.Float.{Float, same}
use geometry.Float.Laws.{IsOrdered}
use geometry.Queue.Swap.{get_elem?-out}
use geometry.Queue.{QueueNode, is_above, cmp}

abbrev pub parent : ℕ → ℕ
parent c = (c - 1) / 2

module _ {ℓ} {F : Type ℓ} ⦃fl : Float F⦄ where
  -- The first of two nodes may stand above the second; where one is missing nothing is asked.
  abbrev pub le? : Option (QueueNode F) → Option (QueueNode F) → Bool
  le? (some n) (some o) = not (is_above (cmp n o))
  le? (some n) none = true
  le? none o = true

  pub le?-none : (o : Option (QueueNode F)) → le? o none ≡ true
  le?-none none = refl
  le?-none (some n) = refl

  -- The distance is not NaN.
  abbrev pub num? : Option (QueueNode F) → Bool
  num? (some n) = same n.dist n.dist
  num? none = true

  abbrev pub AllNumbers : List (QueueNode F) → Type 0
  AllNumbers nodes = (c : ℕ) → num? (get_elem? nodes c) ≡ true

  -- No node stands above its parent.
  abbrev pub IsHeap : List (QueueNode F) → Type 0
  IsHeap nodes = (c : ℕ) → 0 < c → le? (get_elem? nodes (parent c)) (get_elem? nodes c) ≡ true

  module _ (laws : IsOrdered F) where
    open laws use {less_asymm, less_cotrans}

    pub cmp_total : (n o : QueueNode F) → is_above (cmp n o) ≡ true → is_above (cmp o n) ≡ false
    unfolding cmp
    cmp_total n o h = ground (arith, less_asymm n.dist o.dist, less_asymm o.dist n.dist)

    pub cmp_refl : (n : QueueNode F) → is_above (cmp n n) ≡ false
    unfolding cmp
    cmp_refl n = ground (arith, less_asymm n.dist n.dist)

    pub cmp_trans :
        (m n o : QueueNode F)
        → same m.dist m.dist ≡ true
        → same n.dist n.dist ≡ true
        → same o.dist o.dist ≡ true
        → is_above (cmp m n) ≡ false
        → is_above (cmp n o) ≡ false
        → is_above (cmp m o) ≡ false
    unfolding cmp
    cmp_trans m n o hm hn ho h k = ground (
      arith,
      less_asymm m.dist n.dist,
      less_asymm n.dist m.dist,
      less_asymm n.dist o.dist,
      less_asymm o.dist n.dist,
      less_asymm m.dist o.dist,
      less_asymm o.dist m.dist,
      less_cotrans o.dist n.dist m.dist hn,
      less_cotrans m.dist o.dist n.dist ho,
      less_cotrans n.dist m.dist o.dist hm,
    )

    pub le?-trans :
        (m : Option (QueueNode F)) (n : QueueNode F) (o : Option (QueueNode F))
        → num? m ≡ true
        → num? (some n) ≡ true
        → num? o ≡ true
        → le? m (some n) ≡ true
        → le? (some n) o ≡ true
        → le? m o ≡ true
    le?-trans none n o hm hn ho h k = refl
    le?-trans (some m) n none hm hn ho h k = refl
    le?-trans (some m) n (some o) hm hn ho h k = ground (arith, cmp_trans m n o hm hn ho)

    root_least_below :
        (k : ℕ) (nodes : List (QueueNode F)) (c : ℕ)
        → AllNumbers nodes
        → IsHeap nodes
        → c < k
        → c < length nodes
        → le? (get_elem? nodes 0) (get_elem? nodes c) ≡ true
    root_least_below zero nodes c numbers heap few inside = absurd (omega arith)
    root_least_below (suc k) nodes zero numbers heap few inside =
        let (n, e) = get_elem?-some nodes 0 inside in rw e (ground (arith, cmp_refl n))
    root_least_below (suc k) nodes (suc c) numbers heap few inside =
        let up = parent (suc c) in
        let (n, e) = get_elem?-some nodes up (omega arith) in
        le?-trans (get_elem? nodes 0) n (get_elem? nodes (suc c)) (numbers 0) (rw e at (numbers up))
          (numbers (suc c))
          (rw e at (root_least_below k nodes up numbers heap (omega arith) (omega arith)))
          (rw e at (heap (suc c) (omega arith)))

    -- No node of a heap stands above its root.
    pub root_least :
        (nodes : List (QueueNode F)) (c : ℕ)
        → AllNumbers nodes
        → IsHeap nodes
        → le? (get_elem? nodes 0) (get_elem? nodes c) ≡ true
    root_least nodes c numbers heap = elim (dec_lt c (length nodes)) [
      | yes inside ↦ root_least_below (suc c) nodes c numbers heap (omega arith) inside
      | no out ↦ rw (get_elem?-out nodes c (omega arith)) (le?-none (get_elem? nodes 0))
    ]
