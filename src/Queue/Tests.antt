-- ===== src/Queue/Tests.antt =====
-- Concrete runs of the queue, over the whole numbers of Float/Grid.antt.
use mathlib.Core.List.{Permᴰ}
use geometry.Prelude.{Bool, ℕ, zero, suc, ◌+◌, ◌≡◌, refl, true, some, List, [], ◌∷◌}
use geometry.Prelude.Tests.{ltb}
use geometry.Prelude.Lists.{get_elem?}
use geometry.Prelude.Run.{ok, Returns}
use geometry.Float.Grid.{Grid, fin, pos, grid_float, Grid-IsOrdered}
use geometry.Point.{Point, pt}
use geometry.Queue.{QueueNode, q_seg, push, pop, sift_down, lesser, cmp}
use geometry.Queue.Order.{AllNumbers, IsHeap, le?, le?-none, parent}
use geometry.Queue.Drain.{IsSorted, drain, drain-IsSorted}
use geometry.Queue.Ends.{passing, passes, push-passing, pop-passing, push_correct, pop_correct}

abbrev at : ℕ → ℕ → Point Grid
at x y = pt (fin (pos x)) (fin (pos y))

abbrev seg_node : ℕ → ℕ → QueueNode Grid
seg_node dist place = record {
  dist = fin (pos dist);
  kind = q_seg;
  pos = place;
  a = at 0 0;
  b = at 1 1;
}

abbrev is_near : QueueNode Grid → Bool
is_near n = ltb n.pos 7

abbrev queued : List (QueueNode Grid)
queued = seg_node 2 5 ∷ seg_node 6 8 ∷ seg_node 4 1 ∷ []

push-passing_example :
    Returns
      (λ r. passing is_near r ≡ passes is_near (seg_node 1 3) + passing is_near queued)
      (push queued (seg_node 1 3))
push-passing_example = push-passing is_near queued (seg_node 1 3)

pop-passing_example :
    Returns
      (λ r.
        (r.0 ≡ some (seg_node 2 5))
        × (passes is_near (seg_node 2 5) + passing is_near r.1 ≡ passing is_near queued))
      (pop queued)
pop-passing_example = pop-passing is_near (seg_node 2 5) (seg_node 6 8 ∷ seg_node 4 1 ∷ [])

pop-queued : pop queued ≡ ok (some (seg_node 2 5), seg_node 4 1 ∷ seg_node 6 8 ∷ [])
unfolding pop sift_down lesser cmp
pop-queued = refl

queued-IsHeap : IsHeap queued
unfolding cmp
queued-IsHeap zero p = refl
queued-IsHeap (suc zero) p = refl
queued-IsHeap (suc (suc zero)) p = refl
queued-IsHeap (suc (suc (suc c))) p = le?-none (get_elem? queued (parent (suc (suc (suc c)))))

queued-AllNumbers : AllNumbers queued
queued-AllNumbers zero = refl
queued-AllNumbers (suc zero) = refl
queued-AllNumbers (suc (suc zero)) = refl
queued-AllNumbers (suc (suc (suc c))) = refl

push_correct_example :
    Returns
      (λ r. Permᴰ r (seg_node 1 3 ∷ queued) × (IsHeap r × AllNumbers r))
      (push queued (seg_node 1 3))
push_correct_example =
    push_correct Grid-IsOrdered queued (seg_node 1 3) queued-IsHeap queued-AllNumbers refl

pop_correct_example :
    Returns
      (λ r.
        ((r.0 ≡ some (seg_node 2 5)) × Permᴰ r.1 (seg_node 6 8 ∷ seg_node 4 1 ∷ []))
        × (IsHeap r.1 × AllNumbers r.1)
        × ((c : ℕ)
            → le? (some (seg_node 2 5)) (get_elem? (seg_node 6 8 ∷ seg_node 4 1 ∷ []) c) ≡ true))
      (pop queued)
pop_correct_example =
    pop_correct Grid-IsOrdered (seg_node 2 5) (seg_node 6 8 ∷ seg_node 4 1 ∷ []) queued-IsHeap
      queued-AllNumbers

drain-IsSorted_example : Returns (λ out. Permᴰ out queued × IsSorted out) (drain 3 queued)
drain-IsSorted_example = drain-IsSorted Grid-IsOrdered queued queued-IsHeap queued-AllNumbers
