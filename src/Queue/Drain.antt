-- ===== src/Queue/Drain.antt =====
-- Popping until the queue is empty.
use mathlib.Core.Path.{subst}
use mathlib.Core.List.{Permᴰ}
use mathlib.Core.List.Permᴰ
use geometry.Prelude.{ℕ, zero, suc, ◌≡◌, refl, ap, ◌∙◌, true, none, some, List, [], ◌∷◌, arith}
use geometry.Prelude.Lists.{length, get_elem?, All}
use geometry.Prelude.Run.{Run, ok, Returns, ◌>>=◌}
use geometry.Float.{Float}
use geometry.Float.Laws.{IsOrdered}
use geometry.Queue.{QueueNode, pop}
use geometry.Queue.Swap.{length-Permᴰ}
use geometry.Queue.Order.{AllNumbers, IsHeap, le?}
use geometry.Queue.Ends.{pop_correct}

All-Permᴰ {ℓ κ} : {A : Type ℓ} (P : A → Type κ) {xs ys : List A} → Permᴰ xs ys → All P xs → All P ys
All-Permᴰ P Permᴰ.nil h = h
All-Permᴰ P (Permᴰ.cons e p) (h, hs) = (subst P e h, All-Permᴰ P p hs)
All-Permᴰ P (Permᴰ.swap e f) (h, (k, hs)) = (subst P f k, (subst P e h, hs))
All-Permᴰ P (Permᴰ.trans p q) h = All-Permᴰ P q (All-Permᴰ P p h)

module _ {ℓ} {F : Type ℓ} ⦃fl : Float F⦄ where
  -- The node may stand above each of these.
  abbrev IsLeast : QueueNode F → List (QueueNode F) → Type 0
  IsLeast n q = All (λ m. le? (some n) (some m) ≡ true) q

  abbrev pub IsSorted : List (QueueNode F) → Type 0
  IsSorted [] = Unit
  IsSorted (n ∷ q) = IsLeast n q × IsSorted q

  -- pop, this many times
  unfoldable pub drain : ℕ → List (QueueNode F) → Run (List (QueueNode F))
  drain zero q = ok []
  drain (suc k) q = do
    (popped, left) ← pop q
    elim popped [ none ↦ ok [] | some n ↦ do rest ← drain k left; ok (n ∷ rest) ]

  above_all-IsLeast :
      (n : QueueNode F) (q : List (QueueNode F))
      → ((c : ℕ) → le? (some n) (get_elem? q c) ≡ true)
      → IsLeast n q
  above_all-IsLeast n [] h = tt
  above_all-IsLeast n (m ∷ q) h = (h 0, above_all-IsLeast n q λ c. h (suc c))

  module _ (laws : IsOrdered F) where
    drain_many-IsSorted :
        (k : ℕ) (q : List (QueueNode F))
        → length q ≡ k
        → IsHeap q
        → AllNumbers q
        → Returns (λ out. Permᴰ out q × IsSorted out) (drain k q)
    unfolding drain
    drain_many-IsSorted zero [] e heap numbers = ([], refl, (Permᴰ.nil, tt))
    drain_many-IsSorted zero (n ∷ rest) e heap numbers = absurd (omega (arith, e))
    drain_many-IsSorted (suc k) [] e heap numbers = absurd (omega (arith, e))
    drain_many-IsSorted (suc k) (n ∷ rest) e heap numbers =
        let ((popped, left), run, ((first, same), (heap', numbers'), least)) =
          pop_correct laws n rest heap numbers in
        let size : length left ≡ k = omega (arith, length-Permᴰ same, e) in
        let (out, run', (all, sorted)) = drain_many-IsSorted k left size heap' numbers' in
        let run'' : pop (n ∷ rest) ≡ ok (some n, left) = run ∙ ap (λ o. ok (o, left)) first in
        (
          n ∷ out,
          rw (run'', run') refl,
          (
            Permᴰ.cons refl (Permᴰ.trans all same),
            (
              All-Permᴰ _ (Permᴰ.symm (Permᴰ.trans all same)) (above_all-IsLeast n rest least),
              sorted,
            ),
          ),
        )

    -- From a heap of nodes whose distances are not NaN, as many calls of pop as there are nodes
    -- return each of them once, in an order in which none stands above an earlier one.
    pub drain-IsSorted :
        (q : List (QueueNode F))
        → IsHeap q
        → AllNumbers q
        → Returns (λ out. Permᴰ out q × IsSorted out) (drain (length q) q)
    drain-IsSorted q heap numbers = drain_many-IsSorted (length q) q refl heap numbers
