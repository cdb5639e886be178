-- ===== src/QTree/Nearby/Queued.antt =====
-- What the queue of the nearest-segment search stands for: its segments, and packed trees at
-- addresses.
use mathlib.Core.List.{Permᴰ}
use mathlib.Core.List.Permᴰ
use mathlib.Core.Path.{subst}
use native.Mathlib.Decide.{dec_lt}
use geometry.Prelude.{
  ℕ, ◌+◌, ◌<◌, ◌≤◌, ◌≡◌, refl, sym, ap, ◌∙◌, ◌⊎◌, inl, inr, true, false, some, List, [], ◌∷◌, ◌++◌,
  arith,
}
use geometry.Prelude.Lists.{get_elem?, drop}
use geometry.Prelude.Counts.{count}
use geometry.Prelude.Run.{ok, Returns}
use geometry.Float.{Float, less, IsNumber}
use geometry.Float.Laws.{IsOrdered}
use geometry.Segment.{Segment, Rect, seg, box}
use geometry.Series.{BaseSeries, segment_at}
use geometry.Queue.{QueueNode, QKind, q_rect, q_seg, push, pop}
use geometry.Queue.Order.{AllNumbers, IsHeap, le?}
use geometry.Queue.Ends.{push_correct, pop_correct}
use geometry.QTree.{QNode, nil}
use geometry.QTree.Placed.{contents, IsPlaced}
use geometry.QTree.Packed.{packed, node_count}

-- all nodes and items of a list of trees
abbrev pub weight : List QNode → ℕ
weight [] = 0
weight (t ∷ ts) = node_count t + weight ts

abbrev pub items_in : ℕ → List QNode → ℕ
items_in x [] = 0
items_in x (t ∷ ts) = count x (contents t) + items_in x ts

module _ {ℓ} {F : Type ℓ} ⦃fl : Float F⦄ (bytes : List ℕ) (Known : ℕ → Type 0)
    (series : BaseSeries F) (to_rect : Rect F → F) (to_segment : Segment F → F) where
  -- No segment of the index is nearer than that.
  abbrev pub IsBeyond : F → ℕ → Type ℓ
  IsBeyond d x = (g : Segment F) → segment_at series x ≡ ok g → less (to_segment g) d ≡ false

  -- At the address the bytes of the tree stand, and its items lie in their bounds.
  pub record Stands (t : QNode) (a : ℕ) (bounds : Rect F) : Type ℓ where
    pub rest : List ℕ
    pub here : drop a bytes ≡ packed t ++ rest
    pub full : 1 ≤ node_count t
    pub placed : IsPlaced series bounds t
    pub inside : (x : ℕ) → 0 < count x (contents t) → Known x

  -- A node stands for a segment and no tree, or for a tree.
  abbrev pub FitsKind : QKind → QueueNode F → QNode → Type ℓ
  FitsKind q_seg n t =
      (t ≡ nil)
      × (segment_at series n.pos ≡ ok (seg n.a n.b))
      × (n.dist ≡ to_segment (seg n.a n.b))
      × (Known n.pos)
  FitsKind q_rect n t = Stands t n.pos (box n.a n.b) × (n.dist ≡ to_rect (box n.a n.b))

  abbrev pub Fits : QueueNode F → QNode → Type ℓ
  Fits n t = FitsKind n.kind n t

  abbrev pub Backed : List (QueueNode F) → List QNode → Type ℓ
  Backed [] [] = Unit
  Backed [] (t ∷ ts) = ⊥ × Unit {ℓ}
  Backed (n ∷ q) [] = ⊥ × Unit {ℓ}
  Backed (n ∷ q) (t ∷ ts) = Fits n t × Backed q ts

  Backed-split :
      (n : QueueNode F) (q : List (QueueNode F)) (ts : List QNode)
      → Backed (n ∷ q) ts
      → (u : QNode) × (us : List QNode) × (ts ≡ u ∷ us) × Fits n u × Backed q us
  Backed-split n q [] h = absurd h.0
  Backed-split n q (t ∷ ts) (fit, h) = (t, ts, refl, fit, h)

  -- A segment of the queue is as near as the segment of the index.
  abbrev pub IsBeaten : ℕ → QueueNode F → Type ℓ
  IsBeaten x n = (n.kind ≡ q_seg) × IsBeyond n.dist x

  abbrev pub BeatenIn : List (QueueNode F) → ℕ → Type ℓ
  BeatenIn [] x = ⊥ × Unit {ℓ}
  BeatenIn (n ∷ q) x = IsBeaten x n ⊎ BeatenIn q x

  -- The index is an item of one of the trees, or beaten.
  abbrev pub IsCovered : List (QueueNode F) → List QNode → ℕ → Type ℓ
  IsCovered q ts x = (0 < items_in x ts) ⊎ BeatenIn q x

  BeatenIn-Permᴰ : {q r : List (QueueNode F)} (x : ℕ) → Permᴰ q r → BeatenIn q x → BeatenIn r x
  BeatenIn-Permᴰ x Permᴰ.nil h = h
  BeatenIn-Permᴰ x (Permᴰ.cons e p) (inl h) = inl (subst (IsBeaten x) e h)
  BeatenIn-Permᴰ x (Permᴰ.cons e p) (inr h) = inr (BeatenIn-Permᴰ x p h)
  BeatenIn-Permᴰ x (Permᴰ.swap e f) (inl h) = inr (inl (subst (IsBeaten x) e h))
  BeatenIn-Permᴰ x (Permᴰ.swap e f) (inr (inl h)) = inl (subst (IsBeaten x) f h)
  BeatenIn-Permᴰ x (Permᴰ.swap e f) (inr (inr h)) = inr (inr h)
  BeatenIn-Permᴰ x (Permᴰ.trans p p') h = BeatenIn-Permᴰ x p' (BeatenIn-Permᴰ x p h)

  -- Trees can be put in the order of the queue.
  Backed-Permᴰ :
      {q r : List (QueueNode F)} (ts : List QNode)
      → Permᴰ q r
      → Backed q ts
      → (us : List QNode) × Backed r us
        × (weight us ≡ weight ts)
        × ((x : ℕ) → items_in x us ≡ items_in x ts)
  Backed-Permᴰ ts Permᴰ.nil h = (ts, h, refl, λ x. refl)
  Backed-Permᴰ [] (Permᴰ.cons e p) h = absurd h.0
  Backed-Permᴰ (t ∷ ts) (Permᴰ.cons e p) (fit, h) =
      let (us, h', heavy, same) = Backed-Permᴰ ts p h in
      (t ∷ us, (subst (λ n. Fits n t) e fit, h'), omega (arith, heavy), λ x. omega (arith, same x))
  Backed-Permᴰ [] (Permᴰ.swap e f) h = absurd h.0
  Backed-Permᴰ (t ∷ []) (Permᴰ.swap e f) (fit, h) = absurd h.0
  Backed-Permᴰ (t ∷ (u ∷ ts)) (Permᴰ.swap e f) (fit, (fit', h)) = (
    u ∷ (t ∷ ts),
    (subst (λ n. Fits n u) f fit', (subst (λ n. Fits n t) e fit, h)),
    omega arith,
    λ x. omega arith,
  )
  Backed-Permᴰ ts (Permᴰ.trans p p') h =
      let (us, h', heavy, same) = Backed-Permᴰ ts p h in
      let (vs, h'', heavy', same') = Backed-Permᴰ us p' h' in
      (vs, h'', heavy' ∙ heavy, λ x. same' x ∙ same x)

  -- A heap of such nodes, with the trees' weight, that covers these indices.
  pub record Queued {κ} (q : List (QueueNode F)) (heavy : ℕ) (C : ℕ → Type κ) : Type (ℓ ⊔ κ) where
    pub trees : List QNode
    pub heap : IsHeap q
    pub numbers : AllNumbers q
    pub backed : Backed q trees
    pub weighs : weight trees ≡ heavy
    pub covers : (x : ℕ) → C x → IsCovered q trees x

  -- What one node covers.
  abbrev pub CoveredBy : QueueNode F → QNode → ℕ → Type ℓ
  CoveredBy n t x = (0 < count x (contents t)) ⊎ IsBeaten x n

  module _ (laws : IsOrdered F) where
    -- Push of a node adds what it covers.
    pub push-Queued {κ} :
        {C : ℕ → Type κ} (q : List (QueueNode F)) (heavy : ℕ) (n : QueueNode F) (t : QNode)
        → Queued q heavy C
        → Fits n t
        → IsNumber n.dist
        → Returns (λ r. Queued r (node_count t + heavy) (λ x. CoveredBy n t x ⊎ C x)) (push q n)
    push-Queued q heavy n t v fit number =
        let (r, run, (same, (heap, numbers))) = push_correct laws q n v.heap v.numbers number in
        let (us, backed, weighs, items) =
          Backed-Permᴰ (t ∷ v.trees) (Permᴰ.symm same) (fit, v.backed) in
        (
          r,
          run,
          record {
            trees = us;
            heap = heap;
            numbers = numbers;
            backed = backed;
            weighs = omega (arith, weighs, v.weighs);
            covers = λ x c. elim c [
              | inl (inl here) ↦ inl (omega (arith, items x))
              | inl (inr beaten) ↦ inr (BeatenIn-Permᴰ x (Permᴰ.symm same) (inl beaten))
              | inr before ↦ elim (v.covers x before) [
                | inl here ↦ inl (omega (arith, items x))
                | inr beaten ↦ inr (BeatenIn-Permᴰ x (Permᴰ.symm same) (inr beaten))
              ]
            ];
          },
        )

    -- What pop returns stands for a tree or a segment, and the queue left for the others.
    pub record Popped {κ} (C : ℕ → Type κ) (heavy : ℕ) (n : QueueNode F)
        (rest left : List (QueueNode F)) : Type (ℓ ⊔ κ) where
      pub tree : QNode
      pub others : List QNode
      pub fit : Fits n tree
      pub backed : Backed rest others
      pub weighs : heavy ≡ node_count tree + weight others
      pub queued : Queued left (weight others) (IsCovered rest others)
      pub covers : (x : ℕ) → C x → CoveredBy n tree x ⊎ IsCovered rest others x
      pub least : (c : ℕ) → le? (some n) (get_elem? rest c) ≡ true

    pub pop-Queued {κ} :
        {C : ℕ → Type κ} (n : QueueNode F) (rest : List (QueueNode F)) (heavy : ℕ)
        → Queued (n ∷ rest) heavy C
        → Returns (λ r. (r.0 ≡ some n) × Popped C heavy n rest r.1) (pop (n ∷ rest))
    pop-Queued {C} n rest heavy v =
        let (r, run, ((first, same), (heap, numbers), least)) =
          pop_correct laws n rest v.heap v.numbers in
        let (t, ts, e, fit, backed) = Backed-split n rest v.trees v.backed in
        let (us, backed', heavy', items) = Backed-Permᴰ ts (Permᴰ.symm same) backed in
        (
          r,
          run,
          (
            first,
            record {
              tree = t;
              others = ts;
              fit = fit;
              backed = backed;
              weighs = sym v.weighs ∙ ap weight e;
              queued = record {
                trees = us;
                heap = heap;
                numbers = numbers;
                backed = backed';
                weighs = heavy';
                covers = λ x c. elim c [
                  | inl here ↦ inl (omega (arith, items x))
                  | inr beaten ↦ inr (BeatenIn-Permᴰ x (Permᴰ.symm same) beaten)
                ];
              };
              covers = λ x c. elim (subst (λ us. IsCovered (n ∷ rest) us x) e (v.covers x c)) [
                | inl here ↦ elim (dec_lt 0 (count x (contents t))) [
                  | yes p ↦ inl (inl p)
                  | no p ↦ inr (inl (omega arith))
                ]
                | inr (inl beaten) ↦ inl (inr beaten)
                | inr (inr beaten) ↦ inr (inr beaten)
              ];
              least = least;
            },
          ),
        )
