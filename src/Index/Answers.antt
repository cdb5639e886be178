-- ===== src/Index/Answers.antt =====
-- The search of a series, with an index or without, against the linear scan.
use mathlib.Core.Path.{subst}
use mathlib.Core.List.{append-nil}
use geometry.Prelude.{
  ℕ, ◌+◌, ◌^◌, ◌≤◌, ◌<◌, ◌≡◌, refl, sym, ap, ◌∙◌, ◌⊎◌, inl, inr, Bool, false, not, ◌&&◌, Option,
  none, List, [], arith,
}
use geometry.Prelude.Tests.{leb, ◌==◌, Bool-cases}
use geometry.Prelude.Lists.{length, keep, take-all, All}
use geometry.Prelude.Counts.{count, range_from, range_from_bounds, keep-SameItems, SameItems}
use geometry.Prelude.Run.{ok, Returns}
use geometry.Float.{Float}
use geometry.Float.Laws.{IsOrdered}
use geometry.Point.{Point, IsNumeric}
use geometry.Segment.{Segment, Rect}
use geometry.Search.{Iter, each, is_hit}
use geometry.Search.Scan.{scan-each}
use geometry.Series.{BaseSeries, IndexOptions, index_bytes, slice_bytes, num_segments, segment_at}
use geometry.Series.Process.Bounds.{process_points-Encloses}
use geometry.Series.Segments.{IsBounded, num_segments_bounds, segment_at_lem}
use geometry.QTree.{QNode, nil, node, allocated}
use geometry.QTree.Placed.{contents, IsPlaced-Holds}
use geometry.QTree.Packed.{packed, node_count, node_count-le-length}
use geometry.QTree.Visits.{visits, visits-keep, stored, stored-SameItems}
use geometry.QTree.Refines.{q_compress_search-each}
use geometry.Index.{uint32, first_bytes, search_series, make_series, options}
use geometry.Index.Build.{index_of, IsIndexed, build_index-IsIndexed}

pub uint32-index_of :
    (kind : ℕ) (root : QNode)
    → length (index_of kind root) < 2 ^ 32
    → uint32 (index_of kind root) ≡ ok (length (index_of kind root))
unfolding uint32
uint32-index_of kind root small = ap ok (omega arith)

pub first_bytes-all : (bytes : List ℕ) → first_bytes bytes (length bytes) ≡ ok bytes
first_bytes-all bytes = rw take-all (ground arith)

pub node_count_pos : (n : QNode) → n ≡ allocated n → 1 ≤ node_count n
node_count_pos nil e = cc
node_count_pos (node split items a b c d) e = omega arith

module _ {ℓ κ} {F : Type ℓ} ⦃fl : Float F⦄ {S : Type κ} (series : BaseSeries F) where
  -- The search of an index visits its tree.
  search_series-visits :
      (root : QNode) (target : Rect F) (iter : Iter F S) (s : S)
      → IsIndexed series root
      → length series.points < 2 ^ 63
      → length (index_bytes series) < 2 ^ 32
      → search_series series target iter s
        ≡ each (segment_at series) iter (visits series series.rect target root) s
  unfolding search_series
  search_series-visits root target iter s built short small =
      let bytes = index_of built.kind root in
      let e : index_bytes series ≡ bytes = ap slice_bytes built.indexed in
      let small' : length bytes < 2 ^ 32 = omega (arith, ap (length {A = ℕ}) e) in
      let (n, counted, (few, _)) = num_segments_bounds series in
      let known = λ (i : ℕ) (h : 0 < count i (contents root)).
        let (g, at, _) = IsPlaced-Holds series series.rect root built.placed i h in
        let below = range_from_bounds i 0 built.total (omega (arith, built.same i)) in
        let le : built.total ≤ length series.points = ground (arith, built.counted) in
        let pair : (i < 2 ^ 63) × ((g : Segment F) × (segment_at series i ≡ ok g)) =
          (omega arith, (g, at)) in
        pair in
      let found =
        q_compress_search-each bytes series target iter (omega arith) root (length bytes) 5
          series.rect [] s known (node_count_pos root built.full)
          (omega (arith, node_count-le-length root)) (sym (append-nil (packed root))) in
      let filled : (length bytes == 0) ≡ false = ground arith in
      rw (e, filled, uint32-index_of built.kind root small', first_bytes-all bytes) found

  -- Without an index the search is the linear scan.
  search_series-scan :
      (n : ℕ) (target : Rect F) (iter : Iter F S) (s : S)
      → num_segments series ≡ ok n
      → series.index ≡ none
      → search_series series target iter s
        ≡ each
            (segment_at series)
            iter
            (keep (is_hit (segment_at series) target) (range_from 0 n))
            s
  unfolding search_series
  search_series-scan n target iter s counted unbuilt =
      let e : index_bytes series ≡ [] = ap slice_bytes unbuilt in
      let ready = λ (j : ℕ) (h : j < 0 + n).
        let (g, at, _) = segment_at_lem series counted j (omega arith) in
        let pair : (g : Segment F) × (segment_at series j ≡ ok g) = (g, at) in pair in
      rw (e, counted) (scan-each (segment_at series) target iter n 0 s ready)

module _ {ℓ} {F : Type ℓ} ⦃fl : Float F⦄ (laws : IsOrdered F) where
  -- A series has no index, or one that holds its segments.
  abbrev pub IsReady : BaseSeries F → Type ℓ
  IsReady series = (series.index ≡ none) ⊎ ((root : QNode) × IsIndexed series root)

  -- For points without NaN and every kind of options makeSeries returns a series of these points,
  -- closed as asked, that has no index or one that holds its segments.
  pub make_series-IsReady :
      (points : List (Point F)) (closed : Bool) (opts : Option IndexOptions)
      → All IsNumeric points
      → Returns
          (λ s. (s.points ≡ points) × (s.closed ≡ closed) × IsReady s)
          (make_series points closed opts)
  unfolding make_series
  make_series-IsReady points closed opts numeric =
      let (p, processed, encloses) = process_points-Encloses laws points closed in
      let bare : BaseSeries F = record {
        closed = closed;
        clockwise = p.clockwise;
        convex = p.convex;
        index_kind = 0;
        index = none;
        rect = p.rect;
        points = points;
      } in
      let o = options opts in
      let kinded : BaseSeries F = record bare { index_kind = o.kind } in
      let bounded : IsBounded kinded = record { numeric = numeric; encloses = encloses } in
      elim (Bool-cases (not (o.min_points == 0) && leb o.min_points (length points))) [
        | inl indexed ↦
            let (s, run, (root, built, same)) = build_index-IsIndexed laws kinded bounded refl in
            (
              s,
              rw (processed, indexed) run,
              (
                ap (λ (b : BaseSeries F). b.points) same,
                ap (λ (b : BaseSeries F). b.closed) same,
                inr (root, built),
              ),
            )
        | inr plain ↦ (bare, rw (processed, plain), (refl, refl, inl refl))
      ]

  -- On a series that has no index or one that holds its segments: what its Search does.
  pub ready-search_series {κ} :
      {S : Type κ} (series : BaseSeries F) (target : Rect F)
      → IsReady series
      → length series.points < 2 ^ 63
      → length (index_bytes series) < 2 ^ 32
      → (n : ℕ) × (num_segments series ≡ ok n)
        × (order : List ℕ) × SameItems order
            (keep (is_hit (segment_at series) target) (range_from 0 n))
        × ((iter : Iter F S) (s : S)
            → search_series series target iter s ≡ each (segment_at series) iter order s)
  ready-search_series series target ready few small =
      let hit = is_hit (segment_at series) target in
      elim ready [
        | inl unbuilt ↦
            let (n, counted, _) = num_segments_bounds series in
            (
              n,
              counted,
              keep hit (range_from 0 n),
              λ x. refl,
              λ iter s. search_series-scan series n target iter s counted unbuilt,
            )
        | inr (root, built) ↦
            let held =
              λ (x : ℕ). stored-SameItems series series.rect root built.placed x ∙ built.same x in
            (
              built.total,
              built.counted,
              visits series series.rect target root,
              rw (visits-keep series laws target series.rect root built.placed)
                  (keep-SameItems hit (stored root) (range_from 0 built.total) held),
              λ iter s. search_series-visits series root target iter s built few small,
            )
      ]

  module _ (points : List (Point F)) (closed : Bool) (opts : Option IndexOptions)
      (series : BaseSeries F) (numeric : All IsNumeric points) (short : length points < 2 ^ 63)
      (made : make_series points closed opts ≡ ok series) where
    pub made-IsReady : (series.points ≡ points) × (series.closed ≡ closed) × IsReady series
    made-IsReady =
        let (s, run, ready) = make_series-IsReady points closed opts numeric in
        let e : s ≡ series = cc in
        subst (λ (b : BaseSeries F). (b.points ≡ points) × (b.closed ≡ closed) × IsReady b) e ready

    -- On a series that makeSeries returns for fewer than 2^63 points without NaN, with an index of
    -- fewer than 2^32 bytes or none, Search runs its callback over the segments whose rectangles
    -- meet the target: over each of them once, in an order that does not depend on the callback, and
    -- until that answers false.
    pub make_series-search_series {κ} :
        {S : Type κ} (target : Rect F)
        → length (index_bytes series) < 2 ^ 32
        → (n : ℕ) × (num_segments series ≡ ok n)
          × (order : List ℕ) × SameItems order
              (keep (is_hit (segment_at series) target) (range_from 0 n))
          × ((iter : Iter F S) (s : S)
              → search_series series target iter s ≡ each (segment_at series) iter order s)
    make_series-search_series target small =
        let (same, _, ready) = made-IsReady in
        ready-search_series series target ready (rw same short) small
