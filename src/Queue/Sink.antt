-- ===== src/Queue/Sink.antt =====
-- The loop of pop and the heap order.
use native.Mathlib.Decide.{ℕ_discrete}
use geometry.Prelude.{ℕ, zero, suc, ◌+◌, ◌*◌, ◌<◌, ◌≡◌, some, List, arith}
use geometry.Prelude.Lists.{length, get_elem?}
use geometry.Prelude.Run.{Returns}
use geometry.Float.{Float}
use geometry.Float.Laws.{IsOrdered}
use geometry.Queue.{QueueNode, swap, sift_down}
use geometry.Queue.Swap.{length-swap, get_elem?-swap}
use geometry.Queue.Order.{parent, AllNumbers, IsHeap}
use geometry.Queue.Down.{Pick, Pick-place, rests, sinks, sift_down-Round, DownInv, least_of_three}

module _ {ℓ} {F : Type ℓ} ⦃fl : Float F⦄ (laws : IsOrdered F) where
  swap-DownInv :
      (nodes : List (QueueNode F)) (i l s : ℕ) (u n : QueueNode F)
      → DownInv nodes i
      → Pick nodes (i * 2 + 1) i l
      → Pick nodes (i * 2 + 2) l s
      → i < s
      → s < length nodes
      → get_elem? nodes s ≡ some u
      → get_elem? nodes i ≡ some n
      → DownInv (swap nodes s u i n) s
  swap-DownInv nodes i l s u n v pick_l pick_s deeper inside eu en =
      let at = get_elem?-swap nodes s i u n inside (omega arith) in
      let (over, below) = least_of_three laws nodes v.numbers i l s (omega arith) pick_l pick_s in
      let where_l = Pick-place nodes (i * 2 + 1) i l pick_l in
      let where_s = Pick-place nodes (i * 2 + 2) l s pick_s in
      let child : parent s ≡ i = ground (arith, where_l, where_s) in
      record {
        numbers = λ c. ground (arith, at c, v.numbers c, v.numbers s, v.numbers i);
        edges = λ c p q.
            ground (arith, at c, at (parent c), v.edges c p, v.bridged s, below c p, over, eu, en);
        bridged = λ c p q r. ground (arith, at c, at (parent s), v.edges c p, eu);
      }

  pub sift_down-IsHeap :
      (fuel : ℕ) (nodes : List (QueueNode F)) (i : ℕ)
      → length nodes < fuel + i
      → i < length nodes
      → DownInv nodes i
      → Returns (λ q. IsHeap q × AllNumbers q) (sift_down fuel nodes i)
  sift_down-IsHeap zero nodes i enough inside v = absurd (omega arith)
  sift_down-IsHeap (suc fuel) nodes i enough inside v = elim (sift_down-Round fuel nodes i) [
    | rests l pick_l pick_s run ↦
        let (over, below) = least_of_three laws nodes v.numbers i l i inside pick_l pick_s in
        (
          nodes,
          run,
          (
            λ c p. elim (ℕ_discrete (parent c) i) [
              | yes e ↦ rw e (below c p e)
              | no e ↦ v.edges c p e
            ],
            v.numbers,
          ),
        )
    | sinks l s u n pick_l pick_s deeper low eu en run ↦ rw run (
        sift_down-IsHeap fuel (swap nodes s u i n) s (omega (arith, length-swap nodes s i u n))
          (omega (arith, length-swap nodes s i u n))
          (swap-DownInv nodes i l s u n v pick_l pick_s deeper low eu en))
  ]
