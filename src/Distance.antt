-- ===== src/Distance.antt =====
-- DistanceToSeries of series.go, on a *baseSeries or a Rect. A *Line is no *baseSeries, so for it the
-- code takes the loop, index or not: that is linear_distance of its series.
pub mod Linear
pub mod Found
pub mod Least
pub mod Tests
use geometry.Prelude.{ℕ, zero, suc, ◌+◌, ◌||◌, Option, some, List, []}
use geometry.Prelude.Tests.{◌==◌, if◌then◌else◌}
use geometry.Prelude.Lists.{length}
use geometry.Prelude.Run.{Run, ok, ◌>>=◌}
use geometry.Float.{Float, less}
use geometry.Segment.{Segment, Rect, seg}
use geometry.Series.{BaseSeries, index_bytes}
use geometry.Series.Process.{zero_point}
use geometry.Index.{uint32, first_bytes}
use geometry.QTree.Nearby.{Nearest, q_compress_nearby_segment}
use geometry.Ring.{Ring, of_series, of_rect, count_segments, nth_segment}

module _ {ℓ} {F : Type ℓ} ⦃fl : Float F⦄ where
  -- the loop over the segments from i on, for this many rounds
  unfoldable pub nearest_from :
      Ring F → (Segment F → F) → ℕ → ℕ → Segment F × F → Run (Segment F × F)
  nearest_from series dist_to_segment zero i best = ok best
  nearest_from series dist_to_segment (suc n) i (near, dist) = do
    g ← nth_segment series i
    let sdist = dist_to_segment g
    nearest_from series dist_to_segment n (i + 1)
        (if i == 0 || less sdist dist then (g, sdist) else (near, dist))

  -- The index that this returns is that of the zero value.
  unfoldable pub linear_distance : Ring F → (Segment F → F) → Run (Nearest F)
  linear_distance series dist_to_segment = do
    n ← count_segments series
    (near, dist) ← nearest_from series dist_to_segment n 0 (seg zero_point zero_point, fl.nan)
    ok (record { nearest = near; idx = some 0; dist = dist })

  unfoldable pub distance_to_series : Ring F → (Rect F → F) → (Segment F → F) → Run (Nearest F)
  distance_to_series (of_rect r) dist_to_rect dist_to_segment =
      linear_distance (of_rect r) dist_to_segment
  distance_to_series (of_series base) dist_to_rect dist_to_segment =
      let bytes = index_bytes base in
      if length bytes == 0 then linear_distance (of_series base) dist_to_segment else (do
        n ← uint32 bytes
        packed ← first_bytes bytes n
        q_compress_nearby_segment (length packed) packed (some 5) base base.rect dist_to_rect
            dist_to_segment [])
