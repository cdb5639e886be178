-- ===== src/Line/Same.antt =====
-- The tests of a line with points and lines, for lines of the same points with different indices.
pub mod Tests
use mathlib.Core.Path.{subst, fun_ext}
use geometry.Prelude.{
  ◌||◌, not, ℕ, zero, suc, ◌+◌, ◌^◌, ◌<◌, ◌≤◌, ◌≡◌, refl, sym, ap, ◌∙◌, Bool, true, false, Option,
  none, some, List, inl, inr, arith,
}
use geometry.Prelude.Tests.{◌==◌, if◌then◌else◌, Bool-cases, Option-cases}
use geometry.Prelude.Tests.{ltb}
use geometry.Rect.{intersects_rect}
use geometry.Prelude.Lists.{length, get_elem?, All, All-get_elem?}
use geometry.Ring.Rounds.{any_from-Agree}
use geometry.Prelude.Agree.{Agree, ok-Agree, bind-Agree, if-Agree}
use geometry.Prelude.Run.{answer, Run, ok, panic, out_of_fuel, ◌>>=◌, or_panic}
use geometry.Float.{Float, less}
use geometry.Float.Laws.{IsOrdered}
use geometry.Point.{Point, IsNumeric}
use geometry.Segment.{Segment, seg, box, rect}
use geometry.Series.Drawn.{IsLow, IsDrawn, segment_at-All}
use geometry.Segment.Raycast.{raycast}
use geometry.Segment.Raycast.Ends.{IsRising, raycast_ends}
use geometry.Segment.Intersect.{contains_point, intersects_segment}
use geometry.Segment.Intersect.Ends.{intersects_segment-Ends}
use geometry.Search.Any.{found}
use geometry.Series.{
  BaseSeries, IndexOptions, index_bytes, num_segments, segment_at, empty, num_points,
}
use geometry.Index.{make_series, search_series}
use geometry.Index.Answers.{made-IsReady}
use geometry.Index.Made.{same_made_parts}
use geometry.Series.Segments.{same_segments, num_segments_bounds, segment_at_lem}
use geometry.Ring.{any_from}
use geometry.Index.Any.{search_series-Agree}
use geometry.Line.{new_line, line_contains_point, meets_line, meets_from, line_intersects_line}

module _ {ℓ} {F : Type ℓ} ⦃fl : Float F⦄ where
  -- The line is made of these points, with an index of fewer than 2^32 bytes or none.
  pub record IsLine (points : List (Point F)) (line : BaseSeries F) : Type ℓ where
    pub opts : Option IndexOptions
    pub made : new_line points opts ≡ ok line
    pub small : length (index_bytes line) < 2 ^ 32

module _ {ℓ} {F : Type ℓ} ⦃fl : Float F⦄ (laws : IsOrdered F) (rising : IsRising F) where
  module _ (points : List (Point F)) (drawn : IsDrawn points) (line other : BaseSeries F)
      (is_line : IsLine points line) (is_other : IsLine points other) where
    open is_line use {opts, made, small}

    -- The ends of the segments are low.
    segments-IsLow : (i : ℕ) (g : Segment F) → segment_at line i ≡ ok g → IsLow g.a × IsLow g.b
    unfolding new_line
    segments-IsLow i g at =
        let (same, _, _) =
          made-IsReady laws points false opts line drawn.numeric drawn.short made in
        segment_at-All IsLow line i g (rw same drawn.low) at

    -- For two lines of the same points, fewer than 2^63, without NaN and with Y below +Inf, each with
    -- an index of fewer than 2^32 bytes or none, ContainsPoint returns for both, and answers the
    -- same. Nextafter must rise below +Inf.
    pub line_contains_point-same :
        (p : Point F)
        → Agree (line_contains_point (some line) p) (line_contains_point (some other) p)
    unfolding new_line line_contains_point contains_point
    line_contains_point-same p =
        let hit = λ (i : ℕ). answer (do g ← segment_at line i; contains_point g p) in
        let test = λ (i : ℕ) (g : Segment F) (at : segment_at line i ≡ ok g) (s : Bool).
          let (a_low, b_low) = segments-IsLow i g at in
          let (r, run, _) = raycast_ends laws rising g p a_low b_low in
          let result : (do r ← raycast g p; ok (if r.on then (true, false) else (s, true)))
              ≡ ok (found (hit i) s) =
            rw (at, run) refl in
          result in
        let same_search =
          search_series-Agree laws points false drawn.numeric drawn.short (box p p)
            (λ found g i. do r ← raycast g p; ok (if r.on then (true, false) else (found, true)))
            hit opts line made small is_other.opts other is_other.made is_other.small test false in
        bind-Agree _ _ _ _ same_search (λ r e. ok-Agree r.0)

    meets_line-Agree :
        (g : Segment F) → IsLow g.a → IsLow g.b → Agree (meets_line line g) (meets_line other g)
    unfolding new_line
    meets_line-Agree g a_low b_low =
        let hit = λ (i : ℕ). answer (do h ← segment_at line i; intersects_segment g h) in
        let test = λ (i : ℕ) (h : Segment F) (at : segment_at line i ≡ ok h) (s : Bool).
          let (b, run) = intersects_segment-Ends laws rising g a_low b_low h in
          let result : (do m ← intersects_segment g h; ok (if m then (true, false) else (s, true)))
              ≡ ok (found (hit i) s) =
            rw (at, run) refl in
          result in
        let same_search =
          search_series-Agree laws points false drawn.numeric drawn.short (rect g)
            (λ found h i. do
              m ← intersects_segment g h
              ok (if m then (true, false) else (found, true)))
            hit opts line made small is_other.opts other is_other.made is_other.small test false in
        bind-Agree _ _ _ _ same_search (λ r e. ok-Agree r.0)

  -- one round of the loop of meets_from
  abbrev round_of : BaseSeries F → BaseSeries F → ℕ → Run Bool
  round_of line line' i = do g ← segment_at line i; meets_line line' g

  -- the segments, the rectangle and the points of both lines
  module _ (points : List (Point F)) (drawn : IsDrawn points) (line other : BaseSeries F)
      (is_line : IsLine points line) (is_other : IsLine points other) where
    same_parts :
        (other.points ≡ line.points) × (other.closed ≡ line.closed) × (other.rect ≡ line.rect)
    unfolding new_line
    same_parts =
        let (e, c, _) =
          made-IsReady laws points false is_line.opts line drawn.numeric drawn.short is_line.made in
        let (e', c', _) =
          made-IsReady laws points false is_other.opts other drawn.numeric drawn.short
            is_other.made in
        (
          e' ∙ sym e,
          c' ∙ sym c,
          (same_made_parts laws points false drawn.numeric is_line.opts line is_line.made
              is_other.opts other is_other.made).0,
        )

    module _ (points' : List (Point F)) (drawn' : IsDrawn points') (line' other' : BaseSeries F)
        (is_line' : IsLine points' line') (is_other' : IsLine points' other') where
      meets_from-Agree : Agree (meets_from line line') (meets_from other other')
      meets_from-Agree =
          let (same_points, same_closed, _) = same_parts in
          let (same_count, same_at) = same_segments line other same_points same_closed in
          let (n, counted, _) = num_segments_bounds line in
          let each_round = λ (i : ℕ) (low : 0 ≤ i) (high : i < 0 + n).
            let (g, at, _) = segment_at_lem line counted i (omega arith) in
            let (a_low, b_low) = segments-IsLow points drawn line other is_line is_other i g at in
            bind-Agree (segment_at line i) (segment_at other i) (meets_line line')
              (meets_line other') (g, at, same_at i ∙ at)
              λ h e.
                let same_one : g ≡ h = cc in
                subst (λ h. Agree (meets_line line' h) (meets_line other' h)) same_one
                  (meets_line-Agree points' drawn' line' other' is_line' is_other' g a_low b_low) in
          bind-Agree (num_segments line) (num_segments other) _ _ (n, counted, same_count ∙ counted)
            λ m e.
              let total : n ≡ m = cc in
              subst
                (λ m.
                  Agree (any_from m 0 (round_of line line')) (any_from m 0 (round_of other other')))
                total (any_from-Agree (round_of line line') (round_of other other') n 0 each_round)

  -- For two lines of points, fewer than 2^63, without NaN and with Y below +Inf, each with an index of
  -- fewer than 2^32 bytes or none, IntersectsLine returns, and answers the same as for two other lines
  -- of the same points, whatever the indices of these. Nextafter must rise below +Inf.
  pub line_intersects_line-same :
      (points : List (Point F)) (line other : BaseSeries F) (points' : List (Point F))
      (line' other' : BaseSeries F)
      → IsDrawn points
      → IsLine points line
      → IsLine points other
      → IsDrawn points'
      → IsLine points' line'
      → IsLine points' other'
      → Agree
          (line_intersects_line (some line) (some line'))
          (line_intersects_line (some other) (some other'))
  unfolding line_intersects_line empty num_points
  line_intersects_line-same points line other points' line' other' drawn is_line is_other drawn'
        is_line' is_other' =
      let (p, c, r) = same_parts points drawn line other is_line is_other in
      let (p', c', r') = same_parts points' drawn' line' other' is_line' is_other' in
      let forth =
        meets_from-Agree points drawn line other is_line is_other points' drawn' line' other'
          is_line' is_other' in
      let back =
        meets_from-Agree points' drawn' line' other' is_line' is_other' points drawn line other
          is_line is_other in
      if-Agree (empty line || empty line') (empty other || empty other') _ _ _ _
        (rw (p, c, p', c') refl) (ok-Agree false)
        (if-Agree (not (intersects_rect line.rect line'.rect))
          (not (intersects_rect other.rect other'.rect)) _ _ _ _ (rw (r, r') refl) (ok-Agree false)
          (if-Agree (ltb (num_points line') (num_points line))
            (ltb (num_points other') (num_points other)) _ _ _ _ (rw (p, p') refl) back forth))
