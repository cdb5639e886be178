-- ===== src/Distance/Found.antt =====
-- DistanceToSeries on a series with an index that holds its segments, or without an index.
use mathlib.Core.Path.{subst}
use mathlib.Core.List.{append-nil}
use geometry.Prelude.{
  ℕ, zero, suc, ◌^◌, ◌<◌, ◌≤◌, ◌≡◌, refl, sym, ap, ◌⊎◌, inl, inr, true, false, none, [], arith,
}
use geometry.Prelude.Tests.{◌==◌}
use geometry.Prelude.Lists.{length, All, All-get_elem?}
use geometry.Prelude.Counts.{count, range_from, range_from_bounds, range_from-count}
use geometry.Prelude.Run.{ok, Returns}
use geometry.Float.{Float, less, IsNumber}
use geometry.Float.Laws.{IsOrdered}
use geometry.Point.{IsNumeric}
use geometry.Segment.{Segment, Rect, rect}
use geometry.Segment.Bounds.{rect-IsNumericRect}
use geometry.Rect.{contains_rect}
use geometry.Rect.Order.{IsNumericRect}
use geometry.Series.{BaseSeries, index_bytes, slice_bytes, num_segments, segment_at}
use geometry.Series.Segments.{num_segments_bounds, segment_at_lem}
use geometry.Ring.{of_series}
use geometry.QTree.{QNode}
use geometry.QTree.Placed.{contents}
use geometry.QTree.Packed.{packed, node_count-le-length}
use geometry.QTree.Nearby.{Nearest}
use geometry.QTree.Nearby.Queued.{Stands}
use geometry.QTree.Nearby.Finds.{q_compress_nearby_segment-Finds}
use geometry.Index.Build.{index_of, IsIndexed}
use geometry.Index.Answers.{uint32-index_of, first_bytes-all, node_count_pos, IsReady}
use geometry.Distance.{distance_to_series}
use geometry.Distance.Linear.{linear_distance-Held, linear_distance_empty}

no_item {κ} : {C : ℕ → Type κ} (n : ℕ) → ((x : ℕ) → x < n → C x) → ((x : ℕ) → C x → ⊥) → n ≡ 0
no_item zero held empty = refl
no_item (suc n) held empty = absurd (empty 0 (held 0 (omega arith)))

module _ {ℓ} {F : Type ℓ} ⦃fl : Float F⦄ (laws : IsOrdered F) (to_rect : Rect F → F)
    (to_segment : Segment F → F)
    (number : (g : Segment F) → IsNumericRect (rect g) → IsNumber (to_segment g)) where
  -- The distance to every segment of points without NaN is a number.
  pub segment_at-IsNumber :
      (series : BaseSeries F) {n : ℕ}
      → num_segments series ≡ ok n
      → All IsNumeric series.points
      → (i : ℕ) → i < n
      → Returns (λ g. IsNumber (to_segment g)) (segment_at series i)
  segment_at-IsNumber series counted numeric i low =
      let (g, at, (j, ea, (k, eb))) = segment_at_lem series counted i low in
      (
        g,
        at,
        number g (
            rect-IsNumericRect g.a g.b (All-get_elem? IsNumeric series.points j numeric ea)
              (All-get_elem? IsNumeric series.points k numeric eb)),
      )

  module _ (number_rect : (r : Rect F) → IsNumber (to_rect r))
      (bound : (r : Rect F) (g : Segment F)
        → contains_rect r (rect g) ≡ true
        → less (to_segment g) (to_rect r) ≡ false) where
    module _ (series : BaseSeries F) (short : length series.points < 2 ^ 63) where
      -- No segment, or a nearest segment of the series.
      abbrev pub Found : ℕ → Nearest F → Type ℓ
      Found n r =
          ((n ≡ 0) × (r.dist ≡ fl.nan))
          ⊎ ((i : ℕ) × (i < n)
              × (segment_at series i ≡ ok r.nearest)
              × (r.dist ≡ to_segment r.nearest)
              × ((x : ℕ) (g : Segment F)
                  → x < n
                  → segment_at series x ≡ ok g
                  → less (to_segment g) r.dist ≡ false))

      -- The search of the index.
      index-Found :
          (root : QNode)
          → (built : IsIndexed series root) → length (index_bytes series) < 2 ^ 32
          → Returns (Found built.total) (distance_to_series (of_series series) to_rect to_segment)
      unfolding distance_to_series
      index-Found root built small =
          let bytes = index_of built.kind root in
          let n = built.total in
          let e : index_bytes series ≡ bytes = ap slice_bytes built.indexed in
          let small' : length bytes < 2 ^ 32 = omega (arith, ap (length {A = ℕ}) e) in
          let (m, count_m, (few, _)) = num_segments_bounds series in
          let short' : n ≤ 2 ^ 63 = ground (arith, count_m, built.counted) in
          let wide : length bytes < 2 ^ 64 = omega arith in
          let below = λ (y : ℕ) (c : 0 < count y (contents root)).
            (range_from_bounds y 0 n (omega (arith, built.same y))).1 in
          let stands : Stands bytes (λ y. y < n) series to_rect to_segment root 5 series.rect =
            record {
              rest = [];
              here = sym (append-nil (packed root));
              full = node_count_pos root built.full;
              placed = built.placed;
              inside = λ y c. omega (arith, below y c);
            } in
          let (r, run, finds) =
            q_compress_nearby_segment-Finds laws bytes (λ y. y < n) wide series to_rect to_segment
              number number_rect (λ y low. omega arith) bound (length bytes) root series.rect 5
              stands (omega (arith, node_count-le-length root)) in
          let held = λ (x : ℕ) (low : x < n).
            let all : 0 < count x (range_from 0 n) =
              range_from-count x 0 n (omega arith) (omega arith) in
            let here : 0 < count x (contents root) = omega (arith, built.same x) in here in
          let found : Found n r = elim finds [
            | inl (missing, nan, empty) ↦ inl (no_item n held empty, nan)
            | inr (i, low', index, at', far, least) ↦
                inr (i, low', at', far, λ x g low at. least x (held x low) g at)
          ] in
          let filled : (length bytes == 0) ≡ false = ground arith in
          rw (e, filled, uint32-index_of built.kind root small', first_bytes-all bytes)
            (r, run, found)

      -- The loop.
      linear-Found :
          (n : ℕ)
          → series.index ≡ none
          → All IsNumeric series.points
          → num_segments series ≡ ok n
          → Returns (Found n) (distance_to_series (of_series series) to_rect to_segment)
      unfolding distance_to_series
      linear-Found zero unbuilt numeric counted =
          let e : index_bytes series ≡ [] = ap slice_bytes unbuilt in
          let (r, run, nan) = linear_distance_empty laws (of_series series) to_segment 0 counted in
          rw e (r, run, inl (refl, nan))
      linear-Found (suc m) unbuilt numeric counted =
          let e : index_bytes series ≡ [] = ap slice_bytes unbuilt in
          let known = segment_at-IsNumber series counted numeric in
          let held = λ (x : ℕ) (g : Segment F) (low : x < suc m) (at : segment_at series x ≡ ok g).
            linear_distance-Held laws (of_series series) to_segment (suc m) known x g low at
              counted in
          let (first, at_first, _) = known 0 (omega arith) in
          let (r, run, (k, low', there, far, _)) = held 0 first (omega arith) at_first in
          rw e (
            r,
            run,
            inr (
              k,
              low',
              there,
              far,
              λ x g low at.
                  let (r', run', (_, _, _, _, least)) = held x g low at in
                  let same_run : r' ≡ r = cc in
                  subst (λ (q : Nearest F). less (to_segment g) q.dist ≡ false) same_run
                    (least low),
            ),
          )

      -- With an index or without.
      pub distance_to_series-Found :
          (n : ℕ)
          → IsReady laws series
          → length (index_bytes series) < 2 ^ 32
          → All IsNumeric series.points
          → num_segments series ≡ ok n
          → Returns (Found n) (distance_to_series (of_series series) to_rect to_segment)
      distance_to_series-Found n ready small numeric counted = elim ready [
        | inl unbuilt ↦ linear-Found n unbuilt numeric counted
        | inr (root, built) ↦
            let total : built.total ≡ n = ground (arith, built.counted, counted) in
            subst
              (λ t. Returns (Found t) (distance_to_series (of_series series) to_rect to_segment))
              total (index-Found root built small)
      ]
