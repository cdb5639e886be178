-- ===== src/QTree/Found.antt =====
-- The search of the packed bytes runs the callback over exactly the items that the tree visits.
use mathlib.Core.Path.{fun_ext}
use mathlib.Core.List.{append_assoc}
use native.Mathlib.Nat.{add-zero}
use geometry.Prelude.{
  ℕ, ◌+◌, ◌-◌, ◌%◌, ◌^◌, ◌≤◌, ◌<◌, ◌≡◌, refl, sym, ◌∙◌, Bool, true, false, some, List, [], ◌∷◌,
  ◌++◌, inl, inr, arith,
}
use geometry.Prelude.Tests.{◌==◌, if◌then◌else◌, Bool-cases}
use geometry.Prelude.Lists.{length, keep, drop, drop_skip, drop_piece, length-append}
use geometry.Prelude.Counts.{count}
use geometry.Prelude.Sort.{Ascends}
use geometry.Prelude.Run.{Run, ok}
use geometry.Float.{Float}
use geometry.Segment.{Segment, Rect, rect}
use geometry.Rect.{intersects_rect}
use geometry.Series.{BaseSeries, segment_at}
use geometry.Search.{Iter, go_on, each, is_hit}
use geometry.Search.Each.{go_on_assoc, each-append}
use geometry.Varint.{Addr, append_uvarint}
use geometry.Varint.RoundTrip.{uvarint, read_uvarint-uvarint}
use geometry.QTree.{Quad, QNode, nil, quad_bounds}
use geometry.QTree.Search.{search_items, search_quads}
use geometry.QTree.Packed.{deltas, slot, packed, node_count, node_count-le-length}
use geometry.QTree.Visits.{visits}

module _ {ℓ κ} {F : Type ℓ} ⦃fl : Float F⦄ {S : Type κ} (bytes : List ℕ) (series : BaseSeries F)
    (target : Rect F) (iter : Iter F S) where
  -- The item is an index of a segment.
  abbrev pub IsItem : ℕ → Type ℓ
  IsItem i = (i < 2 ^ 63) × ((g : Segment F) × (segment_at series i ≡ ok g))

  abbrev pub hits : List ℕ → List ℕ
  hits = keep (is_hit (segment_at series) target)

  pub search_items-each :
      (items : List ℕ) (a last : ℕ) (rest : List ℕ) (s : S) (after : Addr → S → Run (S × Bool))
      → Ascends last items
      → last < 2 ^ 63
      → ((i : ℕ) → 0 < count i items → IsItem i)
      → drop a bytes ≡ deltas last items ++ rest
      → search_items bytes series target iter (length items) (some a) last after s
        ≡ go_on
            (each (segment_at series) iter (hits items) s)
            (after (some (a + length (deltas last items))))
  unfolding search_items deltas each
  search_items-each [] a last rest s after up lt known here = rw add-zero
  search_items-each (i ∷ items) a last rest s after (le, up) lt known here =
      let x = (i + 2 ^ 64 - last) % 2 ^ 64 in
      let (small, (g, at)) = known i (ground arith) in
      let here' : drop a bytes ≡ uvarint x ++ (deltas i items ++ rest) =
        here ∙ append_assoc (uvarint x) (deltas i items) rest in
      let back : (x + last) % 2 ^ 64 ≡ i = omega arith in
      let a' = a + length (uvarint x) in
      let end : a + length (uvarint x ++ deltas i items) ≡ a' + length (deltas i items) =
        omega (arith, length-append (uvarint x) (deltas i items)) in
      let loop = λ (t : S).
        search_items-each items a' i rest t after up small (λ j h. known j (omega arith))
          (drop_skip bytes a (uvarint x) here') in
      let read = read_uvarint-uvarint x a bytes (deltas i items ++ rest) (omega arith) here' in
      elim (Bool-cases (intersects_rect (rect g) target)) [
        | inl hit ↦
            let listed : is_hit (segment_at series) target i ≡ true = rw at hit in
            rw (listed, read, back, at, hit, end, fun_ext loop)
              (sym (go_on_assoc (iter s g i) (each (segment_at series) iter (hits items)) _))
        | inr miss ↦
            let listed : is_hit (segment_at series) target i ≡ false = rw at miss in
            rw (listed, read, back, at, miss, end) (loop s)
      ]

  -- What search_quads does with the quad q, whose node is n, and then with the others.
  module _ (bounds : Rect F) (below : Addr → Rect F → S → Run (S × Bool)) (q : Quad) where
    abbrev pub visits_quad : QNode → List ℕ
    visits_quad n =
        if intersects_rect (quad_bounds bounds q) target
        then visits series (quad_bounds bounds q) target n
        else []

    pub search_quads-nil :
        (qs : List Quad) (a : ℕ) (rest : List ℕ) (s : S)
        → drop a bytes ≡ slot nil [] ++ rest
        → search_quads bytes bounds target below (q ∷ qs) (some a) s
          ≡ search_quads bytes bounds target below qs (some (a + 1)) s
    unfolding search_quads append_uvarint
    search_quads-nil qs a rest s here = rw (read_uvarint-uvarint 0 a bytes rest (omega arith) here)

    pub search_quads-node :
        (n : QNode) (qs : List Quad) (a : ℕ) (rest vs : List ℕ) (s : S)
        → 1 ≤ node_count n
        → drop a bytes ≡ uvarint (length (packed n)) ++ (packed n ++ rest)
        → length bytes < 2 ^ 64
        → ((x : ℕ) (t : S)
            → drop x bytes ≡ packed n ++ rest
            → below (some x) (quad_bounds bounds q) t
              ≡ each (segment_at series) iter (visits series (quad_bounds bounds q) target n) t)
        → ((t : S)
            → search_quads bytes bounds target below qs
                (some (a + length (uvarint (length (packed n)) ++ packed n)))
                t
              ≡ each (segment_at series) iter vs t)
        → search_quads bytes bounds target below (q ∷ qs) (some a) s
          ≡ each (segment_at series) iter (visits_quad n ++ vs) s
    unfolding search_quads
    search_quads-node n qs a rest vs s full here small call others =
        let size = length (packed n) in
        let x = a + length (uvarint size) in
        let within = drop_skip bytes a (uvarint size) here in
        let fits = drop_piece bytes x (packed n) rest within in
        let some_bytes : (size == 0) ≡ false = ground (arith, node_count-le-length n) in
        let read = read_uvarint-uvarint size a bytes (packed n ++ rest) (omega arith) here in
        let end : a + length (uvarint size ++ packed n) ≡ x + size =
          omega (arith, length-append (uvarint size) (packed n)) in
        let rest' = rw end at (fun_ext others) in
        elim (Bool-cases (intersects_rect (quad_bounds bounds q) target)) [
          | inl near ↦
              rw (read, some_bytes, near, call x s within, rest')
                (sym (each-append (segment_at series) iter _ vs s))
          | inr far ↦ rw (read, some_bytes, far, rest') (unfold each in refl)
        ]
