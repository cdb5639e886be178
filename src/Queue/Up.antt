-- ===== src/Queue/Up.antt =====
-- The loop of push, which moves a node up the heap.
use mathlib.Core.List.{Permᴰ}
use mathlib.Core.Path.{subst}
use native.Mathlib.Decide.{ℕ_discrete}
use geometry.Prelude.{ℕ, zero, suc, ◌<◌, ◌≡◌, ◌≢◌, refl, sym, inl, inr, true, some, List, arith}
use geometry.Prelude.Tests.{◌==◌, Bool-cases}
use geometry.Prelude.Lists.{length, get_elem?, get_elem?-some}
use geometry.Prelude.Run.{ok, Returns}
use geometry.Float.{Float}
use geometry.Float.Laws.{IsOrdered}
use geometry.Queue.{QueueNode, swap, is_above, cmp, sift_up}
use geometry.Queue.Swap.{Permᴰ-refl, swap-Permᴰ, length-swap, get_elem?-swap}
use geometry.Queue.Order.{parent, le?, num?, AllNumbers, IsHeap, le?-trans, cmp_total}

module _ {ℓ} {F : Type ℓ} ⦃fl : Float F⦄ where
  -- What a round does with the node at i: it stays, at the root or below a node that may stand
  -- there, or it changes places with its parent.
  data Round (fuel : ℕ) (nodes : List (QueueNode F)) (i : ℕ) : Type ℓ where
    root : i ≡ 0 → sift_up (suc fuel) nodes i ≡ ok nodes → Round fuel nodes i
    settled :
        0 < i
        → le? (get_elem? nodes (parent i)) (get_elem? nodes i) ≡ true
        → sift_up (suc fuel) nodes i ≡ ok nodes
        → Round fuel nodes i
    rises :
        (a n : QueueNode F)
        → 0 < i
        → get_elem? nodes (parent i) ≡ some a
        → get_elem? nodes i ≡ some n
        → is_above (cmp a n) ≡ true
        → sift_up (suc fuel) nodes i ≡ sift_up fuel (swap nodes (parent i) a i n) (parent i)
        → Round fuel nodes i

  sift_up-Round :
      (fuel : ℕ) (nodes : List (QueueNode F)) (i : ℕ) → i < length nodes → Round fuel nodes i
  unfolding sift_up
  sift_up-Round fuel nodes i inside = elim (Bool-cases (i == 0)) [
    | inl top ↦ root (ground arith) (rw top refl)
    | inr below ↦
        let (a, ea) = get_elem?-some nodes (parent i) (omega arith) in
        let (n, en) = get_elem?-some nodes i inside in
        elim (Bool-cases (is_above (cmp a n))) [
          | inl wrong ↦ rises a n (ground arith) ea en wrong (rw (below, ea, en, wrong) refl)
          | inr right ↦
              settled (ground arith) (rw (ea, en, right) refl) (rw (below, ea, en, right) refl)
        ]
  ]

  -- The loop ends, with the same nodes.
  pub sift_up-Permᴰ :
      (fuel : ℕ) (nodes : List (QueueNode F)) (i : ℕ)
      → i < fuel
      → i < length nodes
      → Returns (λ q. Permᴰ q nodes) (sift_up fuel nodes i)
  sift_up-Permᴰ zero nodes i enough inside = absurd (omega arith)
  sift_up-Permᴰ (suc fuel) nodes i enough inside = elim (sift_up-Round fuel nodes i inside) [
    | root e run ↦ (nodes, run, Permᴰ-refl nodes)
    | settled pos right run ↦ (nodes, run, Permᴰ-refl nodes)
    | rises a n pos ea en wrong run ↦
        let (q, rest, same) =
          sift_up-Permᴰ fuel (swap nodes (parent i) a i n) (parent i) (omega arith)
            (omega (arith, length-swap nodes (parent i) i a n)) in
        (q, rw run rest, Permᴰ.trans same (swap-Permᴰ nodes (parent i) i ea en))
  ]

  -- Only the node at i may stand wrong, with the node above it.
  pub record UpInv (nodes : List (QueueNode F)) (i : ℕ) : Type 0 where
    pub numbers : AllNumbers nodes
    pub edges :
        (c : ℕ) → 0 < c → c ≢ i → le? (get_elem? nodes (parent c)) (get_elem? nodes c) ≡ true
    pub bridged :
        (c : ℕ)
        → 0 < c
        → 0 < i
        → parent c ≡ i
        → le? (get_elem? nodes (parent i)) (get_elem? nodes c) ≡ true

  module _ (laws : IsOrdered F) where
    swap-UpInv :
        (nodes : List (QueueNode F)) (i : ℕ) (a n : QueueNode F)
        → UpInv nodes i
        → 0 < i
        → i < length nodes
        → get_elem? nodes (parent i) ≡ some a
        → get_elem? nodes i ≡ some n
        → is_above (cmp a n) ≡ true
        → UpInv (swap nodes (parent i) a i n) (parent i)
    swap-UpInv nodes i a n v pos inside ea en wrong =
        let up = parent i in
        let at = get_elem?-swap nodes up i a n (omega arith) inside in
        let lower = cmp_total laws a n wrong in
        let num_a : num? (some a) ≡ true = rw ea at (v.numbers up) in
        let num_n : num? (some n) ≡ true = rw en at (v.numbers i) in
        record {
          numbers = λ c. ground (arith, at c, v.numbers c);
          edges = λ c p q.
              let beside =
                le?-trans laws (some n) a (get_elem? nodes c) num_n num_a (v.numbers c) in
              ground
                (arith, at c, at (parent c), v.edges c p, v.bridged c p pos, lower, ea, en, beside);
          bridged = λ c p q r.
              let over =
                le?-trans laws (get_elem? nodes (parent up)) a (get_elem? nodes c)
                  (v.numbers (parent up)) num_a (v.numbers c) in
              ground (arith, at c, at (parent up), v.edges c p, v.edges up q, ea, over);
        }

    pub sift_up-IsHeap :
        (fuel : ℕ) (nodes : List (QueueNode F)) (i : ℕ)
        → i < fuel
        → i < length nodes
        → UpInv nodes i
        → Returns (λ q. IsHeap q × AllNumbers q) (sift_up fuel nodes i)
    sift_up-IsHeap zero nodes i enough inside v = absurd (omega arith)
    sift_up-IsHeap (suc fuel) nodes i enough inside v = elim (sift_up-Round fuel nodes i inside) [
      | root e run ↦ (nodes, run, (λ c p. v.edges c p (omega arith), v.numbers))
      | settled pos right run ↦ (
        nodes,
        run,
        (
          λ c p. elim (ℕ_discrete c i) [
            | yes e ↦
                subst (λ k. le? (get_elem? nodes (parent k)) (get_elem? nodes k) ≡ true) (sym e)
                  right
            | no e ↦ v.edges c p e
          ],
          v.numbers,
        ),
      )
      | rises a n pos ea en wrong run ↦ rw run (
          sift_up-IsHeap fuel (swap nodes (parent i) a i n) (parent i) (omega arith)
            (omega (arith, length-swap nodes (parent i) i a n))
            (swap-UpInv nodes i a n v pos inside ea en wrong))
    ]
