-- ===== src/Ring/Rings.antt =====
-- ring.go: whether a ring contains or meets another, or a line.
use geometry.Prelude.{ℕ, zero, suc, Bool, false, not, ◌||◌}
use geometry.Prelude.Tests.{leb, if◌then◌else◌}
use geometry.Prelude.Run.{Run, ok, out_of_fuel, ◌>>=◌, or_else}
use geometry.Float.{Float, less}
use geometry.Rect.{contains_rect, intersects_rect, area}
use geometry.Series.{BaseSeries}
use geometry.Ring.{
  Ring, of_rect, of_series, any_from, all_from, bounds, is_empty, is_convex, count_points,
  count_segments, nth_point, nth_segment, complex_ring_min_points,
}
use geometry.Ring.Points.{ring_contains_point}
use geometry.Ring.Segments.{ring_contains_segment, ring_intersects_segment}

module _ {ℓ} {F : Type ℓ} ⦃fl : Float F⦄ where
  -- all points of the other are in a convex ring, or all its segments are in a concave one
  unfoldable pub contains_parts : Ring F → Ring F → Bool → Run Bool
  contains_parts ring other allow_on_edge =
      if is_convex ring
      then all_from (count_points other) 0
          (λ i. do p ← nth_point other i; r ← ring_contains_point ring p allow_on_edge; ok r.hit)
      else do
        n ← count_segments other
        all_from n 0 (λ i. do g ← nth_segment other i; ring_contains_segment ring g allow_on_edge)

  -- ringContainsRing: the call on a rectangle, which has five points, makes no further call, so
  -- two rounds of fuel are enough.
  unfoldable pub contains_ring_within : ℕ → Ring F → Ring F → Bool → Run Bool
  contains_ring_within zero ring other allow_on_edge = out_of_fuel
  contains_ring_within (suc fuel) ring other allow_on_edge =
      let boxed = contains_ring_within fuel ring (of_rect (bounds other)) allow_on_edge in
      if is_empty ring || is_empty other
      then ok false
      else or_else (if leb complex_ring_min_points (count_points other) then boxed else ok false) (
          if not (contains_rect (bounds ring) (bounds other))
          then ok false
          else contains_parts ring other allow_on_edge)

  unfoldable pub ring_contains_ring : Ring F → Ring F → Bool → Run Bool
  ring_contains_ring ring other allow_on_edge = contains_ring_within 2 ring other allow_on_edge

  -- some segment of the other meets the ring
  abbrev meets_segment : Ring F → Ring F → Bool → Run Bool
  meets_segment ring other allow_on_edge = do
    n ← count_segments other
    any_from n 0 (λ i. do g ← nth_segment other i; ring_intersects_segment ring g allow_on_edge)

  -- ringIntersectsRing
  unfoldable pub ring_intersects_ring : Ring F → Ring F → Bool → Run Bool
  ring_intersects_ring ring other allow_on_edge =
      if is_empty ring || is_empty other
      then ok false
      else if not (intersects_rect (bounds ring) (bounds other))
      then ok false
      else if less (area (bounds ring)) (area (bounds other))
      then meets_segment other ring allow_on_edge
      else meets_segment ring other allow_on_edge

  -- ringContainsLine and ringIntersectsLine, on the series of the line
  unfoldable pub ring_contains_line : Ring F → BaseSeries F → Bool → Run Bool
  ring_contains_line ring line allow_on_edge =
      ring_contains_ring ring (of_series line) allow_on_edge

  unfoldable pub ring_intersects_line : Ring F → BaseSeries F → Bool → Run Bool
  ring_intersects_line ring line allow_on_edge =
      let other = of_series line in
      if is_empty ring || is_empty other
      then ok false
      else if not (intersects_rect (bounds ring) (bounds other))
      then ok false
      else or_else
          (any_from (count_points other) 0
            (λ i. do p ← nth_point other i; r ← ring_contains_point ring p allow_on_edge; ok r.hit))
          (meets_segment ring other allow_on_edge)
