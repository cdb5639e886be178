-- ===== src/Index/Build.antt =====
-- buildIndex never panics, and the tree that it packs holds every segment once.
use geometry.Prelude.{
  ℕ, zero, suc, ◌+◌, ◌/◌, ◌%◌, ◌^◌, ◌<◌, ◌≡◌, refl, ap, false, Option, none, some, List, [], ◌∷◌,
  arith,
}
use geometry.Prelude.Lists.{length}
use geometry.Prelude.Counts.{count, range_from, SameItems}
use geometry.Prelude.Run.{ok, Returns}
use geometry.Float.{Float}
use geometry.Float.Laws.{IsOrdered}
use geometry.Segment.{Rect}
use geometry.Series.{BaseSeries, num_segments, segment_at}
use geometry.Series.Segments.{IsBounded, num_segments_bounds, segment_at-contains_rect}
use geometry.QTree.{
  top_left, top_right, bottom_left, bottom_right, quad_bounds, QNode, nil, node, new_node,
  allocated, q_max_depth,
}
use geometry.QTree.Placed.{contents, IsPlaced}
use geometry.QTree.Inserted.{insert-Inserts}
use geometry.QTree.Packed.{packed, compress-packed}
use geometry.QTree.Compress.{compress}
use geometry.Index.{insert_segments, is_built, is_present, build_index, put_uint32, set_compressed}

-- A tree that holds something is a node.
allocated-of_count : (n : QNode) (x : ℕ) → 0 < count x (contents n) → n ≡ allocated n
allocated-of_count nil x h = absurd (omega arith)
allocated-of_count (node split items a b c d) x h = refl

module _ {ℓ} {F : Type ℓ} ⦃fl : Float F⦄ (laws : IsOrdered F) (series : BaseSeries F)
    (bounded : IsBounded series) {total : ℕ} (counted : num_segments series ≡ ok total) where
  insert_segments-count :
      (n i : ℕ) (root : QNode)
      → i + n ≡ total
      → root ≡ allocated root
      → IsPlaced series series.rect root
      → Returns
          (λ m.
            (m ≡ allocated m)
            × IsPlaced series series.rect m
            × ((x : ℕ) → count x (contents m) ≡ count x (range_from i n) + count x (contents root)))
          (insert_segments series n i root)
  unfolding insert_segments
  insert_segments-count zero i root e full placed = (root, refl, (full, placed, λ x. omega arith))
  insert_segments-count (suc n) i root e full placed =
      let (g, at, (numeric, inside)) =
        segment_at-contains_rect series counted i (omega arith) bounded in
      let (m, grown, (placed', gains)) =
        insert-Inserts series laws q_max_depth series.rect root i g full placed
          (at, numeric, inside) in
      let (m', run, (full', placed'', same)) =
        insert_segments-count n (i + 1) m (omega arith)
          (allocated-of_count m i (ground (arith, gains i))) placed' in
      (m', rw (at, grown) run, (full', placed'', λ x. omega (arith, gains x, same x)))

-- The bytes of an index: its kind, the length of the whole, and the packed tree.
abbrev pub index_of : ℕ → QNode → List ℕ
index_of kind root =
    let n = (5 + length (packed root)) % 2 ^ 32 in
    kind % 2 ^ 8
    ∷ n % 2 ^ 8
    ∷ n / 2 ^ 8 % 2 ^ 8
    ∷ n / 2 ^ 16 % 2 ^ 8
    ∷ n / 2 ^ 24 % 2 ^ 8
    ∷ packed root

set_compressed-compress {ℓ} :
    {F : Type ℓ} (series : BaseSeries F) (root : QNode)
    → set_compressed series (compress (series.index_kind % 2 ^ 8 ∷ 0 ∷ 0 ∷ 0 ∷ 0 ∷ []) root)
      ≡ ok (record series { index = some (index_of series.index_kind root) })
unfolding set_compressed put_uint32
set_compressed-compress series root =
    let header : List ℕ = series.index_kind % 2 ^ 8 ∷ 0 ∷ 0 ∷ 0 ∷ 0 ∷ [] in
    let size : suc (suc (suc (suc (suc (length (packed root)))))) ≡ 5 + length (packed root) =
      omega arith in
    rw (compress-packed header root, size)

module _ {ℓ} {F : Type ℓ} ⦃fl : Float F⦄ where
  -- The index of the series is the packed form of this tree, which holds the segments, each in its
  -- bounds.
  pub record IsIndexed (series : BaseSeries F) (root : QNode) : Type ℓ where
    pub total : ℕ
    pub counted : num_segments series ≡ ok total
    pub kind : ℕ
    pub indexed : series.index ≡ some (index_of kind root)
    pub full : root ≡ allocated root
    pub placed : IsPlaced series series.rect root
    pub same : SameItems (contents root) (range_from 0 total)

  pub IsPlaced-index :
      (series : BaseSeries F) (k : ℕ) (o : Option (List ℕ)) (bounds : Rect F) (n : QNode)
      → IsPlaced series bounds n
      → IsPlaced (record series { index_kind = k; index = o }) bounds n
  unfolding segment_at
  IsPlaced-index series k o bounds nil placed = tt
  IsPlaced-index series k o bounds (node split items a b c d) (held, leaf, (pa, pb, pc, pd)) = (
    held,
    leaf,
    (
      IsPlaced-index series k o (quad_bounds bounds top_left) a pa,
      IsPlaced-index series k o (quad_bounds bounds top_right) b pb,
      IsPlaced-index series k o (quad_bounds bounds bottom_left) c pc,
      IsPlaced-index series k o (quad_bounds bounds bottom_right) d pd,
    ),
  )

  -- On a series without an index, buildIndex returns the series with the packed tree of its
  -- segments for an index, and nothing else changed.
  pub build_index-IsIndexed :
      (laws : IsOrdered F) (series : BaseSeries F)
      → IsBounded series
      → series.index ≡ none
      → Returns
          (λ s. (root : QNode) × IsIndexed s root × (s ≡ record series { index = s.index }))
          (build_index series)
  unfolding build_index
  build_index-IsIndexed laws series bounded unbuilt =
      let (total, counted, _) = num_segments_bounds series in
      let (root, run, (full, placed, same)) =
        insert_segments-count laws series bounded counted total 0 new_node (omega arith) refl
          (λ i h. absurd (omega arith), λ _. (refl, refl, refl, refl), (tt, tt, tt, tt)) in
      let bytes = index_of series.index_kind root in
      let closed_index : is_built series ≡ false = ap is_present unbuilt in
      (
        record series { index = some bytes },
        rw (closed_index, counted, run) (set_compressed-compress series root),
        (
          root,
          record {
            total = total;
            counted = unfold num_segments in counted;
            kind = series.index_kind;
            indexed = refl;
            full = full;
            placed = IsPlaced-index series series.index_kind (some bytes) series.rect root placed;
            same = λ x. omega (arith, same x);
          },
          refl,
        ),
      )
