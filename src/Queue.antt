-- ===== src/Queue.antt =====
-- queue.go: the priority queue of the search for the nearest segment, a binary heap in a slice.
pub mod Swap
pub mod Order
pub mod Up
pub mod Down
pub mod Sink
pub mod Ends
pub mod Drain
pub mod Tests
use Prim.Native.Nat.{Ordering, compare}
use geometry.Prelude.{
  ℕ, zero, suc, ◌+◌, ◌-◌, ◌*◌, ◌/◌, Bool, true, false, not, ◌&&◌, Option, none, some, List, [], ◌∷◌,
  ◌++◌,
}
use geometry.Prelude.Tests.{ltb, ◌==◌, if◌then◌else◌}
use geometry.Prelude.Lists.{length, get_elem?, set, take}
use geometry.Prelude.Run.{Run, ok, out_of_fuel, ◌>>=◌, or_panic}
use geometry.Float.{Float, less}
use geometry.Point.{Point}

-- qkind
pub data QKind : Type 0 where
  q_rect q_seg : QKind

abbrev pub rank : QKind → ℕ
rank q_rect = 1
rank q_seg = 2

-- qnode
pub record QueueNode {ℓ} (F : Type ℓ) : Type ℓ where
  pub dist : F
  pub kind : QKind
  pub pos : ℕ
  pub a : Point F
  pub b : Point F

-- cmp > 0
abbrev pub is_above : Ordering → Bool
is_above Ordering.gt = true
is_above Ordering.eq = false
is_above Ordering.lt = false

-- nodes[i], nodes[j] = nodes[j], nodes[i]
abbrev pub swap {ℓ} : {A : Type ℓ} → List A → ℕ → A → ℕ → A → List A
swap nodes i at_i j at_j = set (set nodes i at_j) j at_i

module _ {ℓ} {F : Type ℓ} ⦃fl : Float F⦄ where
  -- qnode.cmp, whose results -1, 0 and +1 are lt, eq and gt
  unfoldable pub cmp : QueueNode F → QueueNode F → Ordering
  cmp n o =
      if less n.dist o.dist
      then Ordering.lt
      else if less o.dist n.dist
      then Ordering.gt
      else if ltb (rank n.kind) (rank o.kind)
      then Ordering.lt
      else if ltb (rank o.kind) (rank n.kind)
      then Ordering.gt
      else if ltb n.pos o.pos
      then Ordering.lt
      else if ltb o.pos n.pos
      then Ordering.gt
      else Ordering.eq

  -- the loop of push, from the node at i up
  unfoldable pub sift_up : ℕ → List (QueueNode F) → ℕ → Run (List (QueueNode F))
  sift_up zero nodes i = out_of_fuel
  sift_up (suc fuel) nodes i =
      let parent = (i - 1) / 2 in
      if i == 0 then ok nodes else do
        above ← or_panic (get_elem? nodes parent)
        node ← or_panic (get_elem? nodes i)
        let rest = sift_up fuel (swap nodes parent above i node) parent
        if is_above (cmp above node) then rest else ok nodes

  -- queue.push
  unfoldable pub push : List (QueueNode F) → QueueNode F → Run (List (QueueNode F))
  push q node = let nodes = q ++ (node ∷ []) in sift_up (length nodes) nodes (length nodes - 1)

  -- if child < len(nodes) && nodes[child].cmp(nodes[smallest]) <= 0 { smallest = child }
  unfoldable pub lesser : List (QueueNode F) → ℕ → ℕ → Run ℕ
  lesser nodes child smallest =
      if ltb child (length nodes)
      then (do
        under ← or_panic (get_elem? nodes child)
        node ← or_panic (get_elem? nodes smallest)
        ok (if is_above (cmp under node) then smallest else child))
      else ok smallest

  -- the loop of pop, from the node at i down
  unfoldable pub sift_down : ℕ → List (QueueNode F) → ℕ → Run (List (QueueNode F))
  sift_down zero nodes i = out_of_fuel
  sift_down (suc fuel) nodes i = do
    left ← lesser nodes (i * 2 + 1) i
    smallest ← lesser nodes (i * 2 + 2) left
    if smallest == i then ok nodes else do
      under ← or_panic (get_elem? nodes smallest)
      node ← or_panic (get_elem? nodes i)
      sift_down fuel (swap nodes smallest under i node) smallest

  -- queue.pop, with `none` for the false of an empty queue
  unfoldable pub pop : List (QueueNode F) → Run (Option (QueueNode F) × List (QueueNode F))
  pop [] = ok (none, [])
  pop (n ∷ rest) = do
    let nodes = n ∷ rest
    last ← or_panic (get_elem? nodes (length nodes - 1))
    let shorter = take (length nodes - 1) (set nodes 0 last)
    sifted ← sift_down (suc (length shorter)) shorter 0
    ok (some n, sifted)
