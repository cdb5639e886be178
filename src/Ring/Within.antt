-- ===== src/Ring/Within.antt =====
-- Whether a ring contains a ring, for rings of the same points with different indices.
pub mod Tests
use mathlib.Core.Path.{subst}
use geometry.Prelude.{
  ℕ, zero, suc, ◌+◌, ◌<◌, ◌≤◌, ◌≡◌, refl, sym, ap, ◌∙◌, Bool, true, false, not, ◌&&◌, ◌||◌, List,
  inl, inr, arith, some,
}
use geometry.Prelude.Tests.{leb, ltb, if◌then◌else◌, Bool-cases}
use geometry.Prelude.Lists.{length, get_elem?, get_elem?-some, All, All-get_elem?}
use geometry.Prelude.Agree.{
  Agree, AgreeBy, ok-Agree, bind-Agree, bind-AgreeBy, if-Agree, if-Agree_when, or_else-Agree,
}
use geometry.Prelude.Run.{Run, ok, Returns, ◌>>=◌}
use geometry.Float.{Float, less}
use geometry.Float.Laws.{IsOrdered}
use geometry.Point.{Point}
use geometry.Segment.{Segment, Rect, box}
use geometry.Segment.Raycast.Ends.{IsRising}
use geometry.Rect
use geometry.Rect.{contains_rect}
use geometry.Series.{BaseSeries, empty, num_points, num_segments, segment_at, point_at}
use geometry.Series.Segments.{same_segments, num_segments_bounds, segment_at_lem}
use geometry.Series.Drawn.{IsLow, IsDrawn, segment_at-All}
use geometry.Series.Process.{stretch, inflate}
use geometry.Series.Process.Bounds.{process_points-Encloses}
use geometry.Series.Process.Least.{process_points_keeps}
use geometry.Index.Made.{made-parts, same_made_parts}
use geometry.Index.Answers.{made-IsReady}
use geometry.Ring.{
  Ring, of_rect, of_series, all_from, bounds, is_empty, is_convex, count_points, count_segments,
  nth_point, nth_segment, complex_ring_min_points,
}
use geometry.Ring.Points.{RingResult, ring_contains_point}
use geometry.Ring.Segments.{ring_contains_segment}
use geometry.Ring.Rings.{contains_parts, contains_ring_within, ring_contains_ring}
use geometry.Ring.Rounds.{all_from-Agree}
use geometry.Ring.Parts.{
  HaveSameParts, rect-HaveSameParts, series-HaveSameParts, both_empty, same_series, rect-IsLow,
}
use geometry.Ring.Same.{IsRing, ring_contains_point-same, ring_contains_segment-same}

module _ {ℓ} {F : Type ℓ} ⦃fl : Float F⦄ (laws : IsOrdered F) (rising : IsRising F)
    (points : List (Point F)) (drawn : IsDrawn points) (ring other : BaseSeries F)
    (is_ring : IsRing points ring) (is_other : IsRing points other) where
  -- what the two tests of a point in contains_parts come to
  contains_point-Agree :
      (p : Point F)
      → Agree
          (do r ← ring_contains_point (of_series ring) p false; ok r.hit)
          (do r ← ring_contains_point (of_series other) p false; ok r.hit)
  contains_point-Agree p =
      bind-AgreeBy (λ (r r' : RingResult). r'.hit ≡ r.hit) _ _ _ _
        (ring_contains_point-same laws rising points drawn ring other is_ring is_other p false)
        λ r r' hit. (r.hit, refl, ap ok hit)

  contains_parts-Agree :
      (inner inner' : Ring F)
      → HaveSameParts inner inner'
      → Agree
          (contains_parts (of_series ring) inner false)
          (contains_parts (of_series other) inner' false)
  unfolding contains_parts
  contains_parts-Agree inner inner' v =
      let (_, convex) =
        same_made_parts laws points true drawn.numeric is_ring.opts ring is_ring.made is_other.opts
          other is_other.made in
      if-Agree ring.convex other.convex _ _ _ _ convex
        (rw v.same_size (
          all_from-Agree _ _ (count_points inner) 0 λ j low high.
            bind-Agree (nth_point inner j) (nth_point inner' j) _ _ (v.points_agree j (omega arith))
              λ p e. contains_point-Agree p))
        (rw (v.counted, v.counted')
          (all_from-Agree _ _ v.total 0 λ j low high.
            let (g, at, (at', (a_low, b_low))) = v.segments_agree j (omega arith) in
            rw (at, at')
              (ring_contains_segment-same laws rising points drawn ring other is_ring is_other g
                a_low b_low)))

  -- One round, where the call on the box, if there is one, agrees.
  within-Agree :
      (fuel : ℕ) (inner inner' : Ring F)
      → (is_empty inner' ≡ is_empty inner)
      → (bounds inner' ≡ bounds inner)
      → HaveSameParts inner inner'
      → (is_empty inner ≡ false
          → leb complex_ring_min_points (count_points inner) ≡ true
          → Agree
              (contains_ring_within fuel (of_series ring) (of_rect (bounds inner)) false)
              (contains_ring_within fuel (of_series other) (of_rect (bounds inner')) false))
      → Agree
          (contains_ring_within (suc fuel) (of_series ring) inner false)
          (contains_ring_within (suc fuel) (of_series other) inner' false)
  unfolding contains_ring_within
  within-Agree fuel inner inner' same_empty same_bounds v boxed =
      let (same_points, same_closed, same_rect, _, _) =
        same_series laws points drawn ring other is_ring is_other in
      if-Agree_when (is_empty (of_series ring) || is_empty inner)
        (is_empty (of_series other) || is_empty inner') _ _ _ _
        (rw (both_empty laws points drawn ring other is_ring is_other, same_empty) refl)
        (λ h. ok-Agree false)
        λ filled.
          or_else-Agree _ _ _ _
            (if-Agree_when (leb complex_ring_min_points (count_points inner))
              (leb complex_ring_min_points (count_points inner')) _ _ _ _
              (ap (leb complex_ring_min_points) v.same_size) (boxed (ground arith))
              λ h. ok-Agree false)
            (if-Agree (not (contains_rect ring.rect (bounds inner)))
              (not (contains_rect other.rect (bounds inner'))) _ _ _ _
              (rw (same_rect, same_bounds) refl) (ok-Agree false)
              (contains_parts-Agree inner inner' v))

  -- For two rings that makeSeries returns for the same points, and two more for points of their own,
  -- each of fewer than 2^63 points, without NaN and with Y below +Inf, and with an index of fewer than
  -- 2^32 bytes or none: ringContainsRing returns, and answers the same for both pairs where the edge
  -- of the ring is not allowed. Nextafter must rise below +Inf.
  pub ring_contains_ring-same :
      (points' : List (Point F)) (inner inner' : BaseSeries F)
      → IsDrawn points'
      → IsRing points' inner
      → IsRing points' inner'
      → Agree
          (ring_contains_ring (of_series ring) (of_series inner) false)
          (ring_contains_ring (of_series other) (of_series inner') false)
  unfolding ring_contains_ring Rect.num_points
  ring_contains_ring-same points' inner inner' drawn' is_inner is_inner' =
      let (_, _, same_box, _, _) =
        same_series laws points' drawn' inner inner' is_inner is_inner' in
      within-Agree 1 (of_series inner) (of_series inner')
        (both_empty laws points' drawn' inner inner' is_inner is_inner') same_box
        (series-HaveSameParts laws points' drawn' inner inner' is_inner is_inner')
        λ filled complex.
          let (low, high) = rect-IsLow laws points' drawn' inner inner' is_inner is_inner' filled in
          subst
            (λ r.
              Agree (contains_ring_within 1 (of_series ring) (of_rect inner.rect) false)
                (contains_ring_within 1 (of_series other) (of_rect r) false))
            (sym same_box)
            (within-Agree 0 (of_rect inner.rect) (of_rect inner.rect) refl refl
              (rect-HaveSameParts inner.rect low high) λ filled complex. cc)
