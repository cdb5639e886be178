-- ===== src/Queue/Ends.antt =====
-- push and pop of queue.go, on the whole.
use mathlib.Core.List.{Permᴰ}
use geometry.Prelude.{
  ℕ, suc, ◌+◌, ◌-◌, ◌≡◌, refl, ◌∙◌, Bool, true, some, List, [], ◌∷◌, ◌++◌, arith,
}
use geometry.Prelude.Tests.{if◌then◌else◌}
use geometry.Prelude.Lists.{length, get_elem?, get_elem?-some, take, keep, length-append}
use geometry.Prelude.Run.{ok, Returns, ◌>>=◌, Returns-both}
use geometry.Float.{Float}
use geometry.Float.Laws.{IsOrdered}
use geometry.Queue.{QueueNode, push, pop, lesser, sift_down}
use geometry.Queue.Swap.{
  length-Permᴰ, last-Permᴰ, init-Permᴰ, get_elem?-last, get_elem?-set, get_elem?-out,
  get_elem?-take,
}
use geometry.Queue.Order.{le?-none, parent, le?, num?, AllNumbers, IsHeap, root_least}
use geometry.Queue.Up.{sift_up-Permᴰ, sift_up-IsHeap, UpInv}
use geometry.Queue.Down.{sift_down-Permᴰ, DownInv}
use geometry.Queue.Sink.{sift_down-IsHeap}

module _ {ℓ} {A : Type ℓ} (p : A → Bool) where
  -- how many pass the test, in a list and of one
  abbrev pub passing : List A → ℕ
  passing xs = length (keep p xs)

  abbrev pub passes : A → ℕ
  passes x = if p x then 1 else 0

  passing-Permᴰ : {xs ys : List A} → Permᴰ xs ys → passing xs ≡ passing ys
  passing-Permᴰ Permᴰ.nil = refl
  passing-Permᴰ (Permᴰ.cons e same) = ground (arith, e, passing-Permᴰ same)
  passing-Permᴰ (Permᴰ.swap e f) = ground (arith, e, f)
  passing-Permᴰ (Permᴰ.trans one two) = passing-Permᴰ one ∙ passing-Permᴰ two

module _ {ℓ} {F : Type ℓ} ⦃fl : Float F⦄ where
  -- Push ends; it adds the node, and nothing else changes but the order.
  pub push-Permᴰ :
      (q : List (QueueNode F)) (node : QueueNode F)
      → Returns (λ r. Permᴰ r (node ∷ q)) (push q node)
  unfolding push
  push-Permᴰ q node =
      let nodes = q ++ (node ∷ []) in
      let long = length-append q (node ∷ []) in
      let (r, run, same) =
        sift_up-Permᴰ (length nodes) nodes (length nodes - 1) (omega arith) (omega arith) in
      (r, run, Permᴰ.trans same (last-Permᴰ q node))

  -- Push returns, and for every test the nodes that pass are as many as before, and one more if the
  -- new node passes.
  pub push-passing :
      (p : QueueNode F → Bool) (q : List (QueueNode F)) (node : QueueNode F)
      → Returns (λ r. passing p r ≡ passes p node + passing p q) (push q node)
  push-passing p q node =
      let (r, run, same) = push-Permᴰ q node in (r, run, ground (arith, passing-Permᴰ p same))

  -- the slice that pop hands to its loop
  abbrev cut : List (QueueNode F) → QueueNode F → List (QueueNode F)
  cut rest last = take (length rest) (last ∷ rest)

  cut-Permᴰ :
      (n : QueueNode F) (rest : List (QueueNode F)) (last : QueueNode F)
      → get_elem? (n ∷ rest) (length rest) ≡ some last
      → Permᴰ (cut rest last) rest
  cut-Permᴰ n [] last e = Permᴰ.nil
  cut-Permᴰ n (m ∷ rest) last e = init-Permᴰ m rest e

  pop-cut :
      (n : QueueNode F) (rest : List (QueueNode F)) (last : QueueNode F)
      → get_elem? (n ∷ rest) (length rest) ≡ some last
      → pop (n ∷ rest)
        ≡ (sift_down (suc (length (cut rest last))) (cut rest last) 0 >>= λ q. ok (some n, q))
  unfolding pop
  pop-cut n rest last e =
      let size : suc (length rest) - 1 ≡ length rest = omega arith in rw (size, e) refl

  pop_one : (n : QueueNode F) → pop (n ∷ []) ≡ ok (some n, [])
  unfolding pop sift_down lesser
  pop_one n = refl

  -- Pop of a queue that is not empty returns its first node and a queue of the others.
  pub pop-Permᴰ :
      (n : QueueNode F) (rest : List (QueueNode F))
      → Returns (λ r. (r.0 ≡ some n) × Permᴰ r.1 rest) (pop (n ∷ rest))
  pop-Permᴰ n rest =
      let (last, e) = get_elem?-some (n ∷ rest) (length rest) (omega arith) in
      let (q, run, same) =
        sift_down-Permᴰ (suc (length (cut rest last))) (cut rest last) 0 (omega arith)
          (omega arith) in
      (
        (some n, q),
        pop-cut n rest last e ∙ rw run refl,
        (refl, Permᴰ.trans same (cut-Permᴰ n rest last e)),
      )

  -- Pop of a queue that is not empty returns its first node, and for every test the nodes left that
  -- pass, with that node if it passes, are as many as before.
  pub pop-passing :
      (p : QueueNode F → Bool) (n : QueueNode F) (rest : List (QueueNode F))
      → Returns
          (λ r. (r.0 ≡ some n) × (passes p n + passing p r.1 ≡ passing p (n ∷ rest)))
          (pop (n ∷ rest))
  pop-passing p n rest =
      let (r, run, (first, same)) = pop-Permᴰ n rest in
      (r, run, (first, ground (arith, passing-Permᴰ p same)))

  module _ (laws : IsOrdered F) where
    -- On a heap of nodes whose distances are not NaN, push of one more such node returns a heap of
    -- such nodes, which are the new one and those of before.
    pub push_correct :
        (q : List (QueueNode F)) (node : QueueNode F)
        → IsHeap q
        → AllNumbers q
        → num? (some node) ≡ true
        → Returns (λ r. Permᴰ r (node ∷ q) × (IsHeap r × AllNumbers r)) (push q node)
    unfolding push
    push_correct q node heap numbers number =
        let nodes = q ++ (node ∷ []) in
        let long = length-append q (node ∷ []) in
        let at = get_elem?-last q node in
        let start : UpInv nodes (length nodes - 1) = record {
          numbers = λ c. ground (arith, at c, numbers c);
          edges = λ c p r. ground (
            arith,
            long,
            at c,
            at (parent c),
            heap c p,
            get_elem?-out q c,
            le?-none (get_elem? nodes (parent c)),
          );
          bridged = λ c p r t. ground (
            arith,
            long,
            at c,
            get_elem?-out q c,
            le?-none (get_elem? nodes (parent (length nodes - 1))),
          );
        } in
        Returns-both _ _ _ (push-Permᴰ q node) (
          sift_up-IsHeap laws (length nodes) nodes (length nodes - 1) (omega arith) (omega arith)
            start)

    cut-DownInv :
        (n : QueueNode F) (rest : List (QueueNode F)) (last : QueueNode F)
        → IsHeap (n ∷ rest)
        → AllNumbers (n ∷ rest)
        → get_elem? (n ∷ rest) (length rest) ≡ some last
        → DownInv (cut rest last) 0
    cut-DownInv n rest last heap numbers e =
        let at = get_elem?-take (length rest) (last ∷ rest) in
        let old = λ (c : ℕ). get_elem?-set (n ∷ rest) 0 c last (omega arith) in
        record {
          numbers = λ c. ground (arith, at c, old c, numbers c, e, numbers (length rest));
          edges = λ c p r. ground (
            arith,
            at c,
            at (parent c),
            old c,
            old (parent c),
            heap c p,
            le?-none (get_elem? (cut rest last) (parent c)),
          );
          bridged = λ c p r t. absurd (omega arith);
        }

    -- On a heap of nodes whose distances are not NaN, pop returns its first node, above which none
    -- of the others stands, and a heap of the others.
    pub pop_correct :
        (n : QueueNode F) (rest : List (QueueNode F))
        → IsHeap (n ∷ rest)
        → AllNumbers (n ∷ rest)
        → Returns
            (λ r.
              ((r.0 ≡ some n) × Permᴰ r.1 rest)
              × (IsHeap r.1 × AllNumbers r.1)
              × ((c : ℕ) → le? (some n) (get_elem? rest c) ≡ true))
            (pop (n ∷ rest))
    pop_correct n [] heap numbers =
        ((some n, []), pop_one n, ((refl, Permᴰ.nil), ((λ c p. refl), (λ c. refl)), λ c. refl))
    pop_correct n (m ∷ rest) heap numbers =
        let others = m ∷ rest in
        let (last, e) = get_elem?-some (n ∷ others) (length others) (omega arith) in
        let slice = cut others last in
        let size = length-Permᴰ (cut-Permᴰ n others last e) in
        let (q, run, (heap', numbers')) =
          sift_down-IsHeap laws (suc (length slice)) slice 0 (omega arith) (omega (arith, size))
            (cut-DownInv n others last heap numbers e) in
        let ((first, left), run', facts) = pop-Permᴰ n others in
        let popped : pop (n ∷ others) ≡ ok (some n, q) = pop-cut n others last e ∙ rw run refl in
        let e' : left ≡ q = cc in
        (
          (first, left),
          run',
          (facts, rw e' (heap', numbers'), λ c. root_least laws (n ∷ others) (suc c) numbers heap),
        )
