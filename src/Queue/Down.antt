-- ===== src/Queue/Down.antt =====
-- The loop of pop, which moves a node down the heap.
use mathlib.Core.List.{Permᴰ}
use mathlib.Core.Path.{subst}
use native.Mathlib.Decide.{ℕ_discrete}
use geometry.Prelude.{
  ℕ, zero, suc, ◌+◌, ◌*◌, ◌<◌, ◌≤◌, ◌≡◌, ◌≢◌, ◌⊎◌, refl, inl, inr, true, false, Option, none, some,
  List, arith,
}
use geometry.Prelude.Tests.{ltb, ◌==◌, Bool-cases}
use geometry.Prelude.Lists.{length, get_elem?, get_elem?-some}
use geometry.Prelude.Run.{ok, Returns}
use geometry.Float.{Float}
use geometry.Float.Laws.{IsOrdered}
use geometry.Queue.{QueueNode, swap, is_above, cmp, lesser, sift_down}
use geometry.Queue.Swap.{Permᴰ-refl, swap-Permᴰ, length-swap, get_elem?-out}
use geometry.Queue.Order.{le?-none, parent, le?, AllNumbers, le?-trans, cmp_total, cmp_refl}

module _ {ℓ} {F : Type ℓ} ⦃fl : Float F⦄ where
  -- Which of two nodes a comparison finds: the other has no child there, or stands below it or not.
  pub data Pick (nodes : List (QueueNode F)) (child smallest s : ℕ) : Type 0 where
    alone : length nodes ≤ child → s ≡ smallest → Pick nodes child smallest s
    stays :
        child < length nodes
        → le? (get_elem? nodes child) (get_elem? nodes smallest) ≡ false
        → s ≡ smallest
        → Pick nodes child smallest s
    falls :
        child < length nodes
        → le? (get_elem? nodes child) (get_elem? nodes smallest) ≡ true
        → s ≡ child
        → Pick nodes child smallest s

  lesser-Pick :
      (nodes : List (QueueNode F)) (child smallest : ℕ)
      → (child < length nodes → smallest < length nodes)
      → Returns (Pick nodes child smallest) (lesser nodes child smallest)
  unfolding lesser
  lesser-Pick nodes child smallest inside = elim (Bool-cases (ltb child (length nodes))) [
    | inr out ↦ (smallest, rw out refl, alone (ground arith) refl)
    | inl under ↦
        let below : child < length nodes = ground arith in
        let (c, ec) = get_elem?-some nodes child below in
        let (n, en) = get_elem?-some nodes smallest (inside below) in
        elim (Bool-cases (is_above (cmp c n))) [
          | inl above ↦
              (smallest, rw (under, ec, en, above) refl, stays below (rw (ec, en, above) refl) refl)
          | inr not_above ↦ (
            child,
            rw (under, ec, en, not_above) refl,
            falls below (rw (ec, en, not_above) refl) refl,
          )
        ]
  ]

  pub Pick-place :
      (nodes : List (QueueNode F)) (child smallest s : ℕ)
      → Pick nodes child smallest s
      → (s ≡ smallest) ⊎ ((s ≡ child) × (child < length nodes))
  Pick-place nodes child smallest s (alone out e) = inl e
  Pick-place nodes child smallest s (stays below under e) = inl e
  Pick-place nodes child smallest s (falls below under e) = inr (e, below)

  -- What a round does with the node at i: it stays, or it changes places with one of its children.
  pub data Round (fuel : ℕ) (nodes : List (QueueNode F)) (i : ℕ) : Type ℓ where
    rests :
        (l : ℕ)
        → Pick nodes (i * 2 + 1) i l
        → Pick nodes (i * 2 + 2) l i
        → sift_down (suc fuel) nodes i ≡ ok nodes
        → Round fuel nodes i
    sinks :
        (l s : ℕ) (u n : QueueNode F)
        → Pick nodes (i * 2 + 1) i l
        → Pick nodes (i * 2 + 2) l s
        → i < s
        → s < length nodes
        → get_elem? nodes s ≡ some u
        → get_elem? nodes i ≡ some n
        → sift_down (suc fuel) nodes i ≡ sift_down fuel (swap nodes s u i n) s
        → Round fuel nodes i

  sift_down-rests :
      (fuel : ℕ) (nodes : List (QueueNode F)) (i l s : ℕ)
      → lesser nodes (i * 2 + 1) i ≡ ok l
      → lesser nodes (i * 2 + 2) l ≡ ok s
      → (s == i) ≡ true
      → sift_down (suc fuel) nodes i ≡ ok nodes
  unfolding sift_down
  sift_down-rests fuel nodes i l s run_l run_s still = rw run_l (rw run_s (rw still refl))

  sift_down-sinks :
      (fuel : ℕ) (nodes : List (QueueNode F)) (i l s : ℕ) (u n : QueueNode F)
      → lesser nodes (i * 2 + 1) i ≡ ok l
      → lesser nodes (i * 2 + 2) l ≡ ok s
      → (s == i) ≡ false
      → get_elem? nodes s ≡ some u
      → get_elem? nodes i ≡ some n
      → sift_down (suc fuel) nodes i ≡ sift_down fuel (swap nodes s u i n) s
  unfolding sift_down
  sift_down-sinks fuel nodes i l s u n run_l run_s moves eu en =
      rw run_l (rw run_s (rw moves (rw eu (rw en refl))))

  pub sift_down-Round : (fuel : ℕ) (nodes : List (QueueNode F)) (i : ℕ) → Round fuel nodes i
  sift_down-Round fuel nodes i =
      let (l, run_l, pick_l) = lesser-Pick nodes (i * 2 + 1) i (λ h. omega arith) in
      let where_l = Pick-place nodes (i * 2 + 1) i l pick_l in
      let (s, run_s, pick_s) = lesser-Pick nodes (i * 2 + 2) l (λ h. grind arith) in
      let where_s = Pick-place nodes (i * 2 + 2) l s pick_s in
      elim (Bool-cases (s == i)) [
        | inl still ↦
            let e : s ≡ i = ground arith in
            rests l pick_l (subst (Pick nodes (i * 2 + 2) l) e pick_s)
              (sift_down-rests fuel nodes i l s run_l run_s still)
        | inr moves ↦
            let deeper : (i < s) × (s < length nodes) = ground (arith, where_l, where_s) in
            let (u, eu) = get_elem?-some nodes s deeper.1 in
            let (n, en) = get_elem?-some nodes i (omega arith) in
            sinks l s u n pick_l pick_s deeper.0 deeper.1 eu en
              (sift_down-sinks fuel nodes i l s u n run_l run_s moves eu en)
      ]

  -- The loop ends, with the same nodes.
  pub sift_down-Permᴰ :
      (fuel : ℕ) (nodes : List (QueueNode F)) (i : ℕ)
      → length nodes < fuel + i
      → i < fuel + i
      → Returns (λ q. Permᴰ q nodes) (sift_down fuel nodes i)
  sift_down-Permᴰ zero nodes i enough some_left = absurd (omega arith)
  sift_down-Permᴰ (suc fuel) nodes i enough some_left = elim (sift_down-Round fuel nodes i) [
    | rests l pick_l pick_s run ↦ (nodes, run, Permᴰ-refl nodes)
    | sinks l s u n pick_l pick_s deeper inside eu en run ↦
        let (q, rest, same) =
          sift_down-Permᴰ fuel (swap nodes s u i n) s (omega (arith, length-swap nodes s i u n))
            (omega arith) in
        (q, rw run rest, Permᴰ.trans same (swap-Permᴰ nodes s i eu en))
  ]

  -- Only the node at i may stand wrong, with the nodes below it.
  pub record DownInv (nodes : List (QueueNode F)) (i : ℕ) : Type 0 where
    pub numbers : AllNumbers nodes
    pub edges :
        (c : ℕ) → 0 < c → parent c ≢ i → le? (get_elem? nodes (parent c)) (get_elem? nodes c) ≡ true
    pub bridged :
        (c : ℕ)
        → 0 < c
        → 0 < i
        → parent c ≡ i
        → le? (get_elem? nodes (parent i)) (get_elem? nodes c) ≡ true

  module _ (laws : IsOrdered F) where
    le?-total : (n o : Option (QueueNode F)) → le? n o ≡ false → le? o n ≡ true
    le?-total none o h = cc
    le?-total (some n) none h = refl
    le?-total (some n) (some o) h = ground (arith, cmp_total laws n o)

    le?-same : (o : Option (QueueNode F)) → le? o o ≡ true
    le?-same none = refl
    le?-same (some n) = ground (arith, cmp_refl laws n)

    -- What a comparison finds may stand above both.
    Pick-least :
        (nodes : List (QueueNode F)) (child smallest s : ℕ)
        → Pick nodes child smallest s
        → (le? (get_elem? nodes s) (get_elem? nodes smallest) ≡ true)
          × (le? (get_elem? nodes s) (get_elem? nodes child) ≡ true)
    Pick-least nodes child smallest s (alone out e) =
        rw (e, get_elem?-out nodes child out)
          (le?-same (get_elem? nodes smallest), le?-none (get_elem? nodes smallest))
    Pick-least nodes child smallest s (stays below under e) =
        rw e (le?-same (get_elem? nodes smallest), le?-total _ _ under)
    Pick-least nodes child smallest s (falls below above e) =
        rw e (above, le?-same (get_elem? nodes child))

    -- What two comparisons find may stand above the node and both of its children.
    module _ (nodes : List (QueueNode F)) (numbers : AllNumbers nodes) (i l s : ℕ)
        (inside : i < length nodes) (pick_l : Pick nodes (i * 2 + 1) i l)
        (pick_s : Pick nodes (i * 2 + 2) l s) where
      pub least_of_three :
          (le? (get_elem? nodes s) (get_elem? nodes i) ≡ true)
          × ((c : ℕ) → 0 < c → parent c ≡ i → le? (get_elem? nodes s) (get_elem? nodes c) ≡ true)
      least_of_three =
          let where_l = Pick-place nodes (i * 2 + 1) i l pick_l in
          let (n, en) = get_elem?-some nodes l (ground (arith, where_l)) in
          let (l_i, l_left) = Pick-least nodes (i * 2 + 1) i l pick_l in
          let (s_l, s_right) = Pick-least nodes (i * 2 + 2) l s pick_s in
          let over = λ (c : ℕ) (h : le? (get_elem? nodes l) (get_elem? nodes c) ≡ true).
            le?-trans laws (get_elem? nodes s) n (get_elem? nodes c) (numbers s)
              (rw en at (numbers l)) (numbers c) (rw en at s_l) (rw en at h) in
          (
            over i l_i,
            λ c p q. elim (ℕ_discrete c (i * 2 + 1)) [
              | yes e ↦ rw e (over (i * 2 + 1) l_left)
              | no e ↦ let e' : c ≡ i * 2 + 2 = omega arith in rw e' s_right
            ],
          )
