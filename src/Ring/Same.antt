-- ===== src/Ring/Same.antt =====
-- The tests of a ring with points and segments, for rings of the same points with different indices.
pub mod Tests
use mathlib.Core.Path.{fun_ext}
use geometry.Prelude.{
  ℕ, zero, suc, ◌+◌, ◌^◌, ◌<◌, ◌≡◌, refl, sym, ap, ◌∙◌, Bool, true, false, not, Option, none, some,
  List, inl, inr, arith,
}
use geometry.Prelude.Tests.{if◌then◌else◌, Bool-cases}
use geometry.Prelude.Lists.{length, keep, All}
use geometry.Prelude.Counts.{range_from}
use geometry.Prelude.Agree.{AgreeBy, Agree, ok-Agree, bind-Agree, bind-AgreeBy, if-Agree}
use geometry.Prelude.Run.{Run, ok, panic, out_of_fuel, ◌>>=◌, Returns, answer}
use geometry.Float.{Float, less}
use geometry.Float.Laws.{IsOrdered}
use geometry.Point.{Point, same_point}
use geometry.Segment.{Segment, rect}
use geometry.Segment.Raycast.{RaycastResult, neither, raycast}
use geometry.Segment.Raycast.Ends.{IsRising, raycast_ends}
use geometry.Segment.Intersect.{intersects_segment}
use geometry.Segment.Intersect.Ends.{intersects_segment-Ends}
use geometry.Search.{is_hit}
use geometry.Search.Any.{found}
use geometry.Series.{BaseSeries, IndexOptions, index_bytes, num_segments, segment_at}
use geometry.Series.Segments.{same_segments}
use geometry.Series.Drawn.{IsLow, IsDrawn, segment_at-All}
use geometry.Index.{make_series}
use geometry.Index.Answers.{made-IsReady}
use geometry.Index.Any.{search_series-Agree}
use geometry.Ring.{of_series, search_ring}
use geometry.Ring.Points.{RingResult, ray_line, ring_contains_point}
use geometry.Ring.Segments.{is_crossed, ring_contains_segment}
use geometry.Index.Made.{same_made_parts}
use geometry.Ring.Tally.{tally, ring_contains_point-tally}

-- the result of a call that returns
abbrev outcome : Run RaycastResult → RaycastResult
outcome (ok r) = r
outcome panic = neither
outcome out_of_fuel = neither

-- The ring is made of these points, with an index of fewer than 2^32 bytes or none.
pub record IsRing {ℓ} {F : Type ℓ} ⦃fl : Float F⦄ (points : List (Point F)) (ring : BaseSeries F)
    : Type ℓ where
  pub opts : Option IndexOptions
  pub made : make_series points true opts ≡ ok ring
  pub small : length (index_bytes ring) < 2 ^ 32

module _ {ℓ} {F : Type ℓ} ⦃fl : Float F⦄ (laws : IsOrdered F) (rising : IsRising F)
    (points : List (Point F)) (drawn : IsDrawn points) (ring other : BaseSeries F)
    (is_ring : IsRing points ring) (is_other : IsRing points other) where
  segments-IsLow : (i : ℕ) (g : Segment F) → segment_at ring i ≡ ok g → IsLow g.a × IsLow g.b
  segments-IsLow i g at =
      let (same, _, _) =
        made-IsReady laws points true is_ring.opts ring drawn.numeric drawn.short is_ring.made in
      segment_at-All IsLow ring i g (rw same drawn.low) at

  same_parts :
      (num_segments other ≡ num_segments ring) × ((i : ℕ) → segment_at other i ≡ segment_at ring i)
  same_parts =
      let (e, c, _) =
        made-IsReady laws points true is_ring.opts ring drawn.numeric drawn.short is_ring.made in
      let (e', c', _) =
        made-IsReady laws points true is_other.opts other drawn.numeric drawn.short is_other.made in
      same_segments ring other (e' ∙ sym e) (c' ∙ sym c)

  -- On two rings that makeSeries returns for the same points, fewer than 2^63, without NaN and with
  -- Y below +Inf, each with an index of fewer than 2^32 bytes or none, ringContainsPoint returns, and
  -- reports the same hit for both. Nextafter must rise below +Inf.
  pub ring_contains_point-same :
      (p : Point F) (allow_on_edge : Bool)
      → Returns
          (λ r.
            Returns (λ r'. r'.hit ≡ r.hit) (ring_contains_point (of_series other) p allow_on_edge))
          (ring_contains_point (of_series ring) p allow_on_edge)
  ring_contains_point-same p allow_on_edge =
      let (same_count, same_at) = same_parts in
      let cast = λ (i : ℕ). outcome (do g ← segment_at ring i; raycast g p) in
      let casts = λ (i : ℕ) (g : Segment F) (at : segment_at ring i ≡ ok g).
        let (a_low, b_low) = segments-IsLow i g at in
        let (r, run, _) = raycast_ends laws rising g p a_low b_low in
        let result : raycast g p ≡ ok (cast i) = rw (at, run) refl in result in
      let (n, counted, (r, run, hit)) =
        ring_contains_point-tally laws points is_ring.opts ring p cast allow_on_edge drawn.numeric
          drawn.short is_ring.made is_ring.small casts in
      let (n', counted', (r', run', hit')) =
        ring_contains_point-tally laws points is_other.opts other p cast allow_on_edge drawn.numeric
          drawn.short is_other.made is_other.small (λ i g at. casts i g (sym (same_at i) ∙ at)) in
      let total : n' ≡ n = ground (arith, counted, counted', same_count) in
      let pick = λ (m : ℕ) (at : ℕ → Run (Segment F)).
        tally cast allow_on_edge (keep (is_hit at (ray_line p)) (range_from 0 m)) false in
      (
        r,
        run,
        (
          r',
          run',
          hit'
              ∙ ap (λ m. pick m (segment_at other)) total
              ∙ ap (pick n) (fun_ext same_at)
              ∙ sym hit,
        ),
      )

  -- Whether some segment of the ring meets a segment.
  is_crossed-Agree :
      (s : Segment F)
      → IsLow s.a
      → IsLow s.b
      → Agree
          (is_crossed (of_series ring) s (λ g. ok true))
          (is_crossed (of_series other) s (λ g. ok true))
  unfolding is_crossed search_ring
  is_crossed-Agree s a_low b_low =
      let hit = λ (i : ℕ). answer (do g ← segment_at ring i; intersects_segment s g) in
      let test = λ (i : ℕ) (g : Segment F) (at : segment_at ring i ≡ ok g) (before : Bool).
        let (b, run) = intersects_segment-Ends laws rising s a_low b_low g in
        let result : (do
          meets ← intersects_segment s g
          if meets then ok (true, false) else ok (before, true))
            ≡ ok (found (hit i) before) =
          rw (at, run) (ground arith) in
        result in
      let same_search =
        search_series-Agree laws points true drawn.numeric drawn.short (rect s)
          (λ before g i. do
            meets ← intersects_segment s g
            if meets then ok (true, false) else ok (before, true))
          hit is_ring.opts ring is_ring.made is_ring.small is_other.opts other is_other.made
          is_other.small test false in
      bind-Agree _ _ _ _ same_search (λ r e. ok-Agree r.0)

  -- On two rings that makeSeries returns for the same points, fewer than 2^63, without NaN and with
  -- Y below +Inf, each with an index of fewer than 2^32 bytes or none, and a segment with Y below
  -- +Inf, ringContainsSegment returns, and answers the same for both where the edge of the ring is not
  -- allowed. Nextafter must rise below +Inf.
  pub ring_contains_segment-same :
      (s : Segment F)
      → less s.a.y fl.inf ≡ true
      → less s.b.y fl.inf ≡ true
      → Agree
          (ring_contains_segment (of_series ring) s false)
          (ring_contains_segment (of_series other) s false)
  unfolding ring_contains_segment
  ring_contains_segment-same s a_low b_low =
      let (_, convex) =
        same_made_parts laws points true drawn.numeric is_ring.opts ring is_ring.made is_other.opts
          other is_other.made in
      let SameHit = λ (r r' : RingResult). r'.hit ≡ r.hit in
      bind-AgreeBy SameHit _ _ _ _ (ring_contains_point-same s.a false) λ a a' hit_a.
        if-Agree (not a.hit) (not a'.hit) _ _ _ _ (ap not hit_a) (ok-Agree false) (
          if-Agree (same_point s.b s.a) (same_point s.b s.a) _ _ _ _ refl (ok-Agree true) (
            bind-AgreeBy SameHit _ _ _ _ (ring_contains_point-same s.b false) λ b b' hit_b.
              if-Agree (not b.hit) (not b'.hit) _ _ _ _ (ap not hit_b) (ok-Agree false) (
                if-Agree ring.convex other.convex _ _ _ _ convex (ok-Agree true) (
                  bind-Agree _ _ _ _ (is_crossed-Agree s a_low b_low)
                    λ crossed e. ok-Agree (not crossed)))))
