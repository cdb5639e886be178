-- ===== src/Ring.antt =====
-- ring.go: rings. A Ring is a Series, that is a *baseSeries or a Rect; the child modules have the
-- tests between rings and points, segments and lines.
pub mod Points
pub mod Segments
pub mod Rings
pub mod Tally
pub mod Rounds
pub mod Same
pub mod Parts
pub mod Within
pub mod Seen
pub mod Box
use geometry.Prelude.{ℕ, zero, suc, ◌+◌, Bool, true, false, Option, some, List}
use geometry.Prelude.Run.{Run, ok, ◌>>=◌, or_else, and_then}
use geometry.Float.{Float}
use geometry.Point.{Point}
use geometry.Segment.{Segment, Rect}
use geometry.Rect
use geometry.Search.{Iter, scan}
use geometry.Series
use geometry.Series.{BaseSeries, IndexOptions}
use geometry.Index.{make_series, search_series}

pub data Ring {ℓ} (F : Type ℓ) : Type ℓ where
  of_series : BaseSeries F → Ring F
  of_rect : Rect F → Ring F

-- complexRingMinPoints
abbrev pub complex_ring_min_points : ℕ
complex_ring_min_points = 16

-- for i := …; n rounds { if test(i) { return true } }; return false
unfoldable pub any_from : ℕ → ℕ → (ℕ → Run Bool) → Run Bool
any_from zero i test = ok false
any_from (suc n) i test = or_else (test i) (any_from n (i + 1) test)

-- for i := …; n rounds { if !test(i) { return false } }; return true
unfoldable pub all_from : ℕ → ℕ → (ℕ → Run Bool) → Run Bool
all_from zero i test = ok true
all_from (suc n) i test = and_then (test i) (all_from n (i + 1) test)

module _ {ℓ} {F : Type ℓ} where
  abbrev pub bounds : Ring F → Rect F
  bounds (of_series s) = s.rect
  bounds (of_rect r) = r

  abbrev pub is_empty : Ring F → Bool
  is_empty (of_series s) = Series.empty s
  is_empty (of_rect r) = Rect.empty r

  abbrev pub is_convex : Ring F → Bool
  is_convex (of_series s) = s.convex
  is_convex (of_rect r) = Rect.convex r

  abbrev pub is_clockwise : Ring F → Bool
  is_clockwise (of_series s) = s.clockwise
  is_clockwise (of_rect r) = Rect.clockwise r

  abbrev pub count_points : Ring F → ℕ
  count_points (of_series s) = Series.num_points s
  count_points (of_rect r) = Rect.num_points r

  abbrev pub nth_point : Ring F → ℕ → Run (Point F)
  nth_point (of_series s) i = Series.point_at s i
  nth_point (of_rect r) i = Rect.point_at r i

  abbrev pub nth_segment : Ring F → ℕ → Run (Segment F)
  nth_segment (of_series s) i = Series.segment_at s i
  nth_segment (of_rect r) i = Rect.segment_at r i

module _ {ℓ} {F : Type ℓ} ⦃fl : Float F⦄ where
  abbrev pub count_segments : Ring F → Run ℕ
  count_segments (of_series s) = Series.num_segments s
  count_segments (of_rect r) = ok (Rect.num_segments r)

  unfoldable pub new_ring : List (Point F) → Option IndexOptions → Run (Ring F)
  new_ring points opts = do s ← make_series points true opts; ok (of_series s)

  module _ {κ} {S : Type κ} where
    -- Rect.Search
    unfoldable pub search_rect : Rect F → Rect F → Iter F S → S → Run (S × Bool)
    search_rect r target iter s = scan (Rect.segment_at r) target iter (Rect.num_segments r) 0 s

    -- ring.Search, with the final state of the callback
    unfoldable pub search_ring : Ring F → Rect F → Iter F S → S → Run S
    search_ring (of_series series) target iter s = do
      (t, more) ← search_series series target iter s
      ok t
    search_ring (of_rect r) target iter s = do (t, more) ← search_rect r target iter s; ok t
