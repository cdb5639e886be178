-- ===== src/Ring/Points.antt =====
-- ring.go: whether a ring contains a point.
use geometry.Prelude.{ℕ, Bool, true, false, not, Option, none, some}
use geometry.Prelude.Tests.{if◌then◌else◌}
use geometry.Prelude.Run.{Run, ok, ◌>>=◌}
use geometry.Float.{Float}
use geometry.Point.{Point, pt}
use geometry.Segment.{Rect, box}
use geometry.Segment.Raycast.{raycast}
use geometry.Search.{Iter}
use geometry.Ring.{Ring, search_ring}

-- An idx of `none` is -1.
pub record RingResult : Type 0 where
  pub hit : Bool
  pub idx : Option ℕ

abbrev pub no_hit : RingResult
no_hit = record { hit = false; idx = none }

module _ {ℓ} {F : Type ℓ} ⦃fl : Float F⦄ where
  -- the line through the point, along which the ray is cast
  abbrev pub ray_line : Point F → Rect F
  ray_line p = box (pt fl.neg_inf p.y) (pt fl.inf p.y)

  -- containsPointSearcher; the state is what `in` and `idx` point to
  unfoldable pub contains_point_searcher : Point F → Bool → Iter F RingResult
  contains_point_searcher p allow_on_edge s g index = do
    r ← raycast g p
    ok (
        if r.on
        then (record { hit = allow_on_edge; idx = some index }, false)
        else if r.in_side
        then (record s { hit = not s.hit }, true)
        else (s, true))

  -- ringContainsPoint; its two helpers have the same body
  unfoldable pub ring_contains_point : Ring F → Point F → Bool → Run RingResult
  ring_contains_point ring p allow_on_edge =
      search_ring ring (ray_line p) (contains_point_searcher p allow_on_edge) no_hit

  unfoldable pub ring_intersects_point : Ring F → Point F → Bool → Run RingResult
  ring_intersects_point ring p allow_on_edge = ring_contains_point ring p allow_on_edge
