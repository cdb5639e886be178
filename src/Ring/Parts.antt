-- ===== src/Ring/Parts.antt =====
-- The points and the segments of two rings that may be asked whether they lie in a ring.
use geometry.Prelude.{
  ℕ, zero, suc, ◌<◌, ◌≡◌, refl, sym, ap, ◌∙◌, true, false, ◌||◌, List, arith, some,
}
use geometry.Prelude.Tests.{ltb}
use geometry.Prelude.Lists.{length, get_elem?, get_elem?-some, All-get_elem?}
use geometry.Prelude.Agree.{Agree, ok-Agree}
use geometry.Prelude.Run.{ok, Returns}
use geometry.Float.{Float}
use geometry.Float.Laws.{IsOrdered}
use geometry.Point.{Point}
use geometry.Segment.{Rect}
use geometry.Rect
use geometry.Rect.{contains_rect}
use geometry.Series.{BaseSeries, empty, num_points, point_at}
use geometry.Series.Segments.{same_segments, num_segments_bounds, segment_at_lem}
use geometry.Series.Drawn.{IsLow, IsDrawn, segment_at-All}
use geometry.Series.Process.{stretch, inflate}
use geometry.Series.Process.Bounds.{process_points-Encloses}
use geometry.Series.Process.Least.{process_points_keeps}
use geometry.Index.Made.{made-parts, same_made_parts}
use geometry.Index.Answers.{made-IsReady}
use geometry.Ring.{Ring, of_rect, of_series, count_points, count_segments, nth_point, nth_segment}
use geometry.Ring.Same.{IsRing}

module _ {ℓ} {F : Type ℓ} ⦃fl : Float F⦄ where
  -- The two rings have the same points and the same segments, below +Inf.
  pub record HaveSameParts (inner inner' : Ring F) : Type ℓ where
    pub same_size : count_points inner' ≡ count_points inner
    pub points_agree :
        (j : ℕ) → j < count_points inner → Agree (nth_point inner j) (nth_point inner' j)
    pub total : ℕ
    pub counted : count_segments inner ≡ ok total
    pub counted' : count_segments inner' ≡ ok total
    pub segments_agree :
        (j : ℕ)
        → j < total
        → Returns
            (λ g. (nth_segment inner' j ≡ ok g) × (IsLow g.a × IsLow g.b))
            (nth_segment inner j)

  rect_points-Agree :
      (r : Rect F) (j : ℕ) → j < 5 → Agree (nth_point (of_rect r) j) (nth_point (of_rect r) j)
  unfolding Rect.point_at
  rect_points-Agree r zero h = ok-Agree _
  rect_points-Agree r (suc zero) h = ok-Agree _
  rect_points-Agree r (suc (suc zero)) h = ok-Agree _
  rect_points-Agree r (suc (suc (suc zero))) h = ok-Agree _
  rect_points-Agree r (suc (suc (suc (suc zero)))) h = ok-Agree _
  rect_points-Agree r (suc (suc (suc (suc (suc j))))) h = absurd (omega arith)

  rect_segments-IsLow :
      (r : Rect F) (j : ℕ)
      → IsLow r.min
      → IsLow r.max
      → j < 4
      → Returns
          (λ g. (nth_segment (of_rect r) j ≡ ok g) × (IsLow g.a × IsLow g.b))
          (nth_segment (of_rect r) j)
  unfolding Rect.segment_at
  rect_segments-IsLow r zero low high h = (_, refl, (refl, (low, low)))
  rect_segments-IsLow r (suc zero) low high h = (_, refl, (refl, (low, high)))
  rect_segments-IsLow r (suc (suc zero)) low high h = (_, refl, (refl, (high, high)))
  rect_segments-IsLow r (suc (suc (suc zero))) low high h = (_, refl, (refl, (high, low)))
  rect_segments-IsLow r (suc (suc (suc (suc j)))) low high h = absurd (omega arith)

  pub rect-HaveSameParts :
      (r : Rect F) → IsLow r.min → IsLow r.max → HaveSameParts (of_rect r) (of_rect r)
  unfolding Rect.num_segments Rect.num_points
  rect-HaveSameParts r low high = record {
    same_size = refl;
    points_agree = λ j h. rect_points-Agree r j h;
    total = 4;
    counted = refl;
    counted' = refl;
    segments_agree = λ j h. rect_segments-IsLow r j low high h;
  }

module _ {ℓ} {F : Type ℓ} ⦃fl : Float F⦄ (laws : IsOrdered F) (points : List (Point F))
    (drawn : IsDrawn points) (inner inner' : BaseSeries F) (is_inner : IsRing points inner)
    (is_inner' : IsRing points inner') where
  pub same_series :
      (inner'.points ≡ inner.points)
      × (inner'.closed ≡ inner.closed)
      × (inner'.rect ≡ inner.rect)
      × (inner.points ≡ points)
      × (inner.closed ≡ true)
  same_series =
      let (e, c, _) =
        made-IsReady laws points true is_inner.opts inner drawn.numeric drawn.short is_inner.made in
      let (e', c', _) =
        made-IsReady laws points true is_inner'.opts inner' drawn.numeric drawn.short
          is_inner'.made in
      let (r, _) =
        same_made_parts laws points true drawn.numeric is_inner.opts inner is_inner.made
          is_inner'.opts inner' is_inner'.made in
      (e' ∙ sym e, c' ∙ sym c, r, e, c)

  pub both_empty : empty inner' ≡ empty inner
  unfolding empty
  both_empty =
      let (same_points, same_closed, _, _, _) = same_series in rw (same_points, same_closed) refl

  pub series-HaveSameParts : HaveSameParts (of_series inner) (of_series inner')
  unfolding num_points point_at
  series-HaveSameParts =
      let (same_points, same_closed, _, e, _) = same_series in
      let (same_count, same_at) = same_segments inner inner' same_points same_closed in
      let (n, counted, _) = num_segments_bounds inner in
      record {
        same_size = ap length same_points;
        points_agree = λ j h.
            let (p, at) = get_elem?-some inner.points j h in
            (p, rw at refl, rw (same_points, at) refl);
        total = n;
        counted = counted;
        counted' = same_count ∙ counted;
        segments_agree = λ j h.
            let (g, at, _) = segment_at_lem inner counted j h in
            (g, at, (same_at j ∙ at, segment_at-All IsLow inner j g (rw e drawn.low) at));
      }

  inflate_lower :
      (r : Rect F) (a : Point F)
      → IsLow a
      → IsLow r.min × IsLow r.max
      → IsLow (inflate r a).min × IsLow (inflate r a).max
  unfolding inflate stretch
  inflate_lower r a h k = ground arith

  -- The corners of a ring that is not empty are below +Inf as well.
  pub rect-IsLow : empty inner ≡ false → IsLow inner.rect.min × IsLow inner.rect.max
  unfolding empty
  rect-IsLow filled =
      let (_, _, _, e, c) = same_series in
      let (p, processed, _) = process_points-Encloses laws points true in
      let (same_rect, _) =
        made-parts laws points true drawn.numeric is_inner.opts inner is_inner.made in
      let at = λ (j : ℕ) (a : Point F) (found : get_elem? points j ≡ some a).
        All-get_elem? IsLow points j drawn.low found in
      let long : (ltb (length points) 3 || ltb (length points) 2) ≡ false =
        rw (← e) (rw c at filled) in
      let (t, run, h) =
        process_points_keeps points (λ r. IsLow r.min × IsLow r.max)
          (λ j a found. (at j a found, at j a found))
          (λ j a r found k. inflate_lower r a (at j a found) k) true long in
      let same_one : t ≡ p = cc in rw (same_rect, ← same_one) h
