-- ===== src/Series.antt =====
-- series.go: the concrete series of points and its accessors. Points and index bytes are slices
-- that nothing changes once the series is made.
pub mod Process
pub mod Segments
pub mod Drawn
use Prim.Native.String.{String}
use geometry.Prelude.{
  ℕ, ◌+◌, ◌-◌, Bool, true, false, ◌&&◌, ◌||◌, Option, none, some, List, [], ◌∷◌, ◌++◌,
}
use geometry.Prelude.Tests.{ltb, ◌==◌, if◌then◌else◌}
use geometry.Prelude.Lists.{length, get_elem?}
use geometry.Prelude.Run.{Run, ok, panic, ◌>>=◌, or_panic}
use geometry.Float.{Float}
use geometry.Point.{Point, same_point}
use geometry.Segment.{Segment, Rect, seg}

pub record IndexOptions : Type 0 where
  pub kind : ℕ
  pub min_points : ℕ

-- IndexKind is a byte: None is 0 and QuadTree is 1.
abbrev pub no_index : ℕ
no_index = 0

abbrev pub quad_tree : ℕ
quad_tree = 1

-- IndexKind.String
unfoldable pub kind_string : ℕ → String
kind_string kind =
    if kind == no_index then "None" else if kind == quad_tree then "QuadTree" else "Unknown"

abbrev pub default_index_options : IndexOptions
default_index_options = record { kind = quad_tree; min_points = 64 }

abbrev pub no_indexing : IndexOptions
no_indexing = record { kind = no_index; min_points = 0 }

-- nil has no bytes.
abbrev pub slice_bytes : Option (List ℕ) → List ℕ
slice_bytes none = []
slice_bytes (some bytes) = bytes

-- The index is nil until it is built.
pub record BaseSeries {ℓ} (F : Type ℓ) : Type ℓ where
  pub closed : Bool
  pub clockwise : Bool
  pub convex : Bool
  pub index_kind : ℕ
  pub index : Option (List ℕ)
  pub rect : Rect F
  pub points : List (Point F)

module _ {ℓ} {F : Type ℓ} where
  -- series.Index(), as the bytes of the slice
  abbrev pub index_bytes : BaseSeries F → List ℕ
  index_bytes s = slice_bytes s.index

  -- (*baseSeries).Empty, off the nil pointer
  unfoldable pub empty : BaseSeries F → Bool
  empty s = s.closed && ltb (length s.points) 3 || ltb (length s.points) 2

  unfoldable pub num_points : BaseSeries F → ℕ
  num_points s = length s.points

  unfoldable pub point_at : BaseSeries F → ℕ → Run (Point F)
  point_at s i = or_panic (get_elem? s.points i)

  unfoldable pub segment_at : BaseSeries F → ℕ → Run (Segment F)
  segment_at s i = do
    a ← or_panic (get_elem? s.points i)
    b ← or_panic (get_elem? s.points (if i + 1 == length s.points then 0 else i + 1))
    ok (seg a b)

module _ {ℓ} {F : Type ℓ} ⦃fl : Float F⦄ where
  -- series.points[len(series.points)-1] == series.points[0]
  ends_meet : List (Point F) → Run Bool
  ends_meet points = do
    last ← or_panic (get_elem? points (length points - 1))
    first ← or_panic (get_elem? points 0)
    ok (same_point last first)

  unfoldable pub num_segments : BaseSeries F → Run ℕ
  unfolding ends_meet
  num_segments s =
      let n = length s.points in
      if s.closed
      then (if ltb n 3 then ok 0 else do meet ← ends_meet s.points; ok (if meet then n - 1 else n))
      else if ltb n 2
      then ok 0
      else ok (n - 1)
