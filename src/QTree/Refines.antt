-- ===== src/QTree/Refines.antt =====
-- The packed search refines the visit of the tree that was packed.
use mathlib.Core.List.{append_assoc}
use geometry.Prelude.{
  ℕ, zero, suc, ◌+◌, ◌^◌, ◌≤◌, ◌<◌, ◌≡◌, ◌∙◌, true, false, some, List, [], ◌∷◌, ◌++◌, arith,
}
use geometry.Prelude.Lists.{length, drop, drop-cons}
use geometry.Prelude.Counts.{count}
use geometry.Float.{Float}
use geometry.Segment.{Rect}
use geometry.Series.{BaseSeries}
use geometry.Search.{Iter}
use geometry.QTree.{top_left, top_right, bottom_left, bottom_right, QNode, nil, node, quad_bounds}
use geometry.QTree.Search.{q_compress_search}
use geometry.QTree.Placed.{contents, count-contents}
use geometry.QTree.Packed.{slot, packed, node_count}
use geometry.QTree.Visits.{visits}
use geometry.QTree.Found.{IsItem}
use geometry.QTree.Whole.{
  run, q_compress_search-head, search_below-leaf, search_below-quads, search_quads-each,
}

module _ {ℓ κ} {F : Type ℓ} ⦃fl : Float F⦄ {S : Type κ} (bytes : List ℕ) (series : BaseSeries F)
    (target : Rect F) (iter : Iter F S) (small : length bytes < 2 ^ 64) where
  abbrev KnowsAll : QNode → Type ℓ
  KnowsAll n = (i : ℕ) → 0 < count i (contents n) → IsItem bytes series target iter i

  -- From an address where the bytes of a tree stand, in fewer than 2^64 bytes, the search with as
  -- much fuel as the tree has nodes, one at least, does on its items what the visit of the tree
  -- does. The items are indices of segments below 2^63.
  pub q_compress_search-each :
      (n : QNode) (fuel a : ℕ) (bounds : Rect F) (rest : List ℕ) (s : S)
      → KnowsAll n
      → 1 ≤ node_count n
      → node_count n ≤ fuel
      → drop a bytes ≡ packed n ++ rest
      → q_compress_search fuel bytes (some a) series bounds target iter s
        ≡ run bytes series target iter (visits series bounds target n) s
  unfolding packed visits
  q_compress_search-each nil fuel a bounds rest s known full enough here = absurd (omega arith)
  q_compress_search-each (node split items qa qb qc qd) zero a bounds rest s known full enough
        here =
      absurd (omega arith)
  q_compress_search-each (node false items qa qb qc qd) (suc fuel) a bounds rest s known full enough
        here =
      let own = λ (i : ℕ) (h : 0 < count i items).
        known i (omega (arith, count-contents i false items qa qb qc qd)) in
      q_compress_search-head bytes series target iter fuel a bounds items (0 ∷ rest) [] s small own
        (here ∙ simp append_assoc)
        λ x t. search_below-leaf bytes series target iter small bounds _ x rest t
  q_compress_search-each (node true items qa qb qc qd) (suc fuel) a bounds rest s known full enough
        here =
      let own = λ (i : ℕ) (h : 0 < count i items).
        known i (omega (arith, count-contents i true items qa qb qc qd)) in
      let read_a =
        λ (x : ℕ) (rest' : List ℕ) (t : S) (full' : 1 ≤ node_count qa)
            (here' : drop x bytes ≡ packed qa ++ rest').
          q_compress_search-each qa fuel x (quad_bounds bounds top_left) rest' t
            (λ i h. known i (omega (arith, count-contents i true items qa qb qc qd))) full'
            (omega arith) here' in
      let read_b =
        λ (x : ℕ) (rest' : List ℕ) (t : S) (full' : 1 ≤ node_count qb)
            (here' : drop x bytes ≡ packed qb ++ rest').
          q_compress_search-each qb fuel x (quad_bounds bounds top_right) rest' t
            (λ i h. known i (omega (arith, count-contents i true items qa qb qc qd))) full'
            (omega arith) here' in
      let read_c =
        λ (x : ℕ) (rest' : List ℕ) (t : S) (full' : 1 ≤ node_count qc)
            (here' : drop x bytes ≡ packed qc ++ rest').
          q_compress_search-each qc fuel x (quad_bounds bounds bottom_left) rest' t
            (λ i h. known i (omega (arith, count-contents i true items qa qb qc qd))) full'
            (omega arith) here' in
      let read_d =
        λ (x : ℕ) (rest' : List ℕ) (t : S) (full' : 1 ≤ node_count qd)
            (here' : drop x bytes ≡ packed qd ++ rest').
          q_compress_search-each qd fuel x (quad_bounds bounds bottom_right) rest' t
            (λ i h. known i (omega (arith, count-contents i true items qa qb qc qd))) full'
            (omega arith) here' in
      let quads =
        slot qa (packed qa)
        ++ (slot qb (packed qb) ++ (slot qc (packed qc) ++ (slot qd (packed qd) ++ rest))) in
      q_compress_search-head bytes series target iter fuel a bounds items (1 ∷ quads) _ s small own
        (here ∙ simp append_assoc)
        λ x t at.
          search_below-quads bytes series target iter small bounds _ x quads _ at
            (search_quads-each bytes series target iter small bounds _ qa qb qc qd (x + 1) rest
              read_a read_b read_c read_d (drop-cons bytes x at).1)
            t
