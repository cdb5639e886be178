-- ===== src/QTree/Whole.antt =====
-- The search of a whole packed tree.
use mathlib.Core.Path.{fun_ext}
use mathlib.Core.List.{append_assoc, append-nil}
use geometry.Prelude.{
  ℕ, suc, ◌+◌, ◌^◌, ◌≤◌, ◌<◌, ◌≡◌, refl, sym, ap, ◌∙◌, Bool, some, List, [], ◌∷◌, ◌++◌, inl, inr,
  arith,
}
use geometry.Prelude.Tests.{Bool-cases}
use geometry.Prelude.Lists.{length, drop, drop-cons, drop_skip, drop_piece}
use geometry.Prelude.Counts.{count}
use geometry.Prelude.Sort.{sort_ints, sort_ints-Ascends, sort_ints-SameItems}
use geometry.Prelude.Run.{Run}
use geometry.Float.{Float}
use geometry.Segment.{Rect}
use geometry.Rect.{intersects_rect}
use geometry.Series.{BaseSeries, segment_at}
use geometry.Search.{Iter, each}
use geometry.Search.Each.{each-append}
use geometry.Varint.{Addr}
use geometry.Varint.RoundTrip.{uvarint, read_uvarint-uvarint}
use geometry.QTree.{
  Quad, top_left, top_right, bottom_left, bottom_right, QNode, nil, node, quad_bounds,
}
use geometry.QTree.Search.{search_quads, search_below, all_quads, q_compress_search}
use geometry.QTree.Packed.{deltas, slot, packed, node_count, length-deltas}
use geometry.QTree.Visits.{visits}
use geometry.QTree.Found.{
  IsItem, hits, search_items-each, visits_quad, search_quads-nil, search_quads-node,
}

module _ {ℓ κ} {F : Type ℓ} ⦃fl : Float F⦄ {S : Type κ} (bytes : List ℕ) (series : BaseSeries F)
    (target : Rect F) (iter : Iter F S) where
  abbrev pub run : List ℕ → S → Run (S × Bool)
  run = each (segment_at series) iter

  module _ (small : length bytes < 2 ^ 64) (bounds : Rect F)
      (below : Addr → Rect F → S → Run (S × Bool)) where
    abbrev pub seen : Quad → QNode → List ℕ
    seen = visits_quad bytes series target iter bounds below

    -- A call at the bytes of the node visits the node.
    abbrev pub IsRead : Quad → QNode → Type κ
    IsRead q n =
        (x : ℕ) (rest : List ℕ) (t : S)
        → 1 ≤ node_count n
        → drop x bytes ≡ packed n ++ rest
        → below (some x) (quad_bounds bounds q) t
          ≡ run (visits series (quad_bounds bounds q) target n) t

    search_quads-step :
        (q : Quad) (n : QNode) (qs : List Quad) (a : ℕ) (rest vs : List ℕ)
        → IsRead q n
        → drop a bytes ≡ slot n (packed n) ++ rest
        → ((t : S)
            → search_quads bytes bounds target below qs (some (a + length (slot n (packed n)))) t
              ≡ run vs t)
        → (s : S)
        → search_quads bytes bounds target below (q ∷ qs) (some a) s ≡ run (seen q n ++ vs) s
    search_quads-step q nil qs a rest vs call here others s =
        search_quads-nil bytes series target iter bounds below q qs a rest s here
        ∙ others s
        ∙ ap (λ l. run (l ++ vs) s) (sym nothing)
      where
        nothing : seen q nil ≡ []
        nothing = elim (Bool-cases (intersects_rect (quad_bounds bounds q) target)) [
          | inl near ↦ rw near (unfold visits in refl)
          | inr far ↦ rw far
        ]
    search_quads-step q (node split items qa qb qc qd) qs a rest vs call here others s =
        let n = node split items qa qb qc qd in
        let size = length (packed n) in
        search_quads-node bytes series target iter bounds below q n qs a rest vs s (omega arith)
          (here ∙ append_assoc (uvarint size) (packed n) rest) small
          (λ x t. call x rest t (omega arith)) others

    -- All four quads, one behind the other.
    pub search_quads-each :
        (qa qb qc qd : QNode) (a : ℕ) (rest : List ℕ)
        → IsRead top_left qa
        → IsRead top_right qb
        → IsRead bottom_left qc
        → IsRead bottom_right qd
        → drop a bytes
          ≡ slot qa (packed qa)
            ++ (slot qb (packed qb) ++ (slot qc (packed qc) ++ (slot qd (packed qd) ++ rest)))
        → (s : S)
        → search_quads bytes bounds target below all_quads (some a) s
          ≡ run
              (seen top_left qa
                ++ (seen top_right qb ++ (seen bottom_left qc ++ seen bottom_right qd)))
              s
    search_quads-each qa qb qc qd a rest ra rb rc rd here =
        let sa = slot qa (packed qa) in
        let sb = slot qb (packed qb) in
        let sc = slot qc (packed qc) in
        let sd = slot qd (packed qd) in
        let b = a + length sa in
        let c = b + length sb in
        let d = c + length sc in
        let at_b = drop_skip bytes a sa here in
        let at_c = drop_skip bytes b sb at_b in
        let at_d = drop_skip bytes c sc at_c in
        let ends = λ (s : S).
          let e : search_quads bytes bounds target below [] (some (d + length sd)) s ≡ run [] s =
            unfold search_quads each in refl in
          e in
        let from_d = search_quads-step bottom_right qd [] d rest [] rd at_d ends in
        let from_c = search_quads-step bottom_left qc _ c _ _ rc at_c from_d in
        let from_b = search_quads-step top_right qb _ b _ _ rb at_b from_c in
        rw (append-nil (seen bottom_right qd)) at
          (search_quads-step top_left qa _ a _ _ ra here from_b)

    -- What follows the items of a node.
    pub search_below-leaf :
        (a : ℕ) (rest : List ℕ) (s : S)
        → drop a bytes ≡ 0 ∷ rest
        → search_below bytes bounds target below (some a) s ≡ run [] s
    unfolding search_below each
    search_below-leaf a rest s here = rw (drop-cons bytes a here).0

    pub search_below-quads :
        (a : ℕ) (rest vs : List ℕ)
        → drop a bytes ≡ 1 ∷ rest
        → ((s : S) → search_quads bytes bounds target below all_quads (some (a + 1)) s ≡ run vs s)
        → (s : S) → search_below bytes bounds target below (some a) s ≡ run vs s
    unfolding search_below
    search_below-quads a rest vs here quads s = rw (drop-cons bytes a here).0 (quads s)

  -- The head of a node: its items are visited, and then what follows them.
  pub q_compress_search-head :
      (fuel a : ℕ) (bounds : Rect F) (items rest vs : List ℕ) (s : S)
      → length bytes < 2 ^ 64
      → ((i : ℕ) → 0 < count i items → IsItem bytes series target iter i)
      → (let sorted = sort_ints items in
          drop a bytes ≡ uvarint (length sorted) ++ (deltas 0 sorted ++ rest))
      → ((x : ℕ) (t : S)
          → drop x bytes ≡ rest
          → search_below bytes bounds target
              (λ b r u. q_compress_search fuel bytes b series r target iter u)
              (some x)
              t
            ≡ run vs t)
      → q_compress_search (suc fuel) bytes (some a) series bounds target iter s
        ≡ run (hits bytes series target iter (sort_ints items) ++ vs) s
  unfolding q_compress_search
  q_compress_search-head fuel a bounds items rest vs s small known here below =
      let sorted = sort_ints items in
      let n = length sorted in
      let first = a + length (uvarint n) in
      let at_items = drop_skip bytes a (uvarint n) here in
      let next = first + length (deltas 0 sorted) in
      let at_rest = drop_skip bytes first (deltas 0 sorted) at_items in
      let fits = drop_piece bytes first (deltas 0 sorted) rest at_items in
      let read =
        read_uvarint-uvarint n a bytes (deltas 0 sorted ++ rest)
          (omega (arith, length-deltas 0 sorted)) here in
      let items_known =
        λ (i : ℕ) (h : 0 < count i sorted). known i (omega (arith, sort_ints-SameItems items i)) in
      let after =
        search_below bytes bounds target
          (λ b r u. q_compress_search fuel bytes b series r target iter u) in
      let rest_runs = λ (t : S). below next t at_rest in
      let loop =
        search_items-each bytes series target iter sorted first 0 rest s after
          (sort_ints-Ascends items) (omega arith) items_known at_items in
      rw (read, loop, fun_ext rest_runs) (sym (each-append (segment_at series) iter _ vs s))
