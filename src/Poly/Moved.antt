-- ===== src/Poly/Moved.antt =====
-- Move of poly.go: every ring of the polygon is a new series of the moved points.
pub mod Tests
use mathlib.Core.Path.{subst}
use geometry.Prelude.{
  ℕ, zero, suc, ◌+◌, ◌≡◌, refl, sym, ap, ◌∙◌, Bool, true, Option, none, some, List, [], ◌∷◌, ◌++◌,
  arith,
}
use geometry.Prelude.Lists.{length, get_elem?, get_elem?-append, drop, drop-cons, All}
use geometry.Prelude.Run.{Run, ok, ◌>>=◌, or_panic, Returns}
use geometry.Float.{Float}
use geometry.Float.Laws.{IsOrdered}
use geometry.Point.{Point, IsNumeric}
use geometry.Rect.{raw_points, num_points, point_at}
use geometry.Series
use geometry.Series.{BaseSeries, default_index_options}
use geometry.Index.{move_points}
use geometry.Index.Answers.{IsReady, make_series-IsReady}
use geometry.Index.Moved.{move-IsReady}
use geometry.Ring.{Ring, of_series, of_rect}
use geometry.Poly.{Poly, copy_from, series_copy_points, move_ring, move_rings, poly_move}

module _ {ℓ} {F : Type ℓ} ⦃fl : Float F⦄ where
  abbrev pub ring_points : Ring F → List (Point F)
  ring_points (of_series s) = s.points
  ring_points (of_rect r) = raw_points r

  abbrev pub is_closed : Ring F → Bool
  is_closed (of_series s) = s.closed
  is_closed (of_rect r) = true

  -- The points of the ring are not NaN, nor are they once they are moved.
  pub record IsMovable (dx dy : F) (r : Ring F) : Type ℓ where
    pub numeric : All IsNumeric (ring_points r)
    pub moved : All IsNumeric (move_points (ring_points r) dx dy)

  copy_from_lem :
      (s : BaseSeries F) (i : ℕ) (rest : List (Point F))
      → drop i s.points ≡ rest
      → copy_from (of_series s) (length rest) i ≡ ok rest
  unfolding copy_from Series.point_at
  copy_from_lem s i [] e = refl
  copy_from_lem s i (p ∷ rest) e =
      let (at, next) = drop-cons s.points i e in rw (at, copy_from_lem s (i + 1) rest next) refl

  -- seriesCopyPoints returns the points.
  pub series_copy_points_lem : (r : Ring F) → series_copy_points r ≡ ok (ring_points r)
  unfolding series_copy_points copy_from num_points point_at raw_points Series.num_points
  series_copy_points_lem (of_series s) = copy_from_lem s 0 s.points refl
  series_copy_points_lem (of_rect r) = refl

  module _ (laws : IsOrdered F) (dx dy : F) where
    -- A series of the moved points of the ring, as closed as it, that has no index or one that holds
    -- its segments.
    pub record IsMoved (r m : Ring F) : Type ℓ where
      pub series : BaseSeries F
      pub is_series : m ≡ of_series series
      pub points : series.points ≡ move_points (ring_points r) dx dy
      pub closed : series.closed ≡ is_closed r
      pub ready : IsReady laws series

    -- The rings of one list are those of the other, moved, in their order.
    pub data AreMoved : List (Ring F) → List (Ring F) → Type ℓ where
      nothing : AreMoved [] []
      more :
          {r m : Ring F} {rs ms : List (Ring F)}
          → IsMoved r m
          → AreMoved rs ms
          → AreMoved (r ∷ rs) (m ∷ ms)

    -- The polygon whose exterior is the ring, moved.
    abbrev pub IsMovedPoly : Poly F → Ring F → Option (Poly F) → Type ℓ
    IsMovedPoly p r q =
        (o : Poly F) × (q ≡ some o)
        × (m : Ring F) × (o.exterior ≡ some m)
        × IsMoved r m
        × AreMoved p.holes o.holes

    move_ring_lem : (r : Ring F) → IsMovable dx dy r → Returns (IsMoved r) (move_ring r dx dy)
    unfolding move_ring
    move_ring_lem (of_series s) can =
        let (m, run, (points, closed, kind, ready)) = move-IsReady laws s dx dy can.moved in
        (
          of_series m,
          rw run refl,
          record { series = m; is_series = refl; points = points; closed = closed; ready = ready },
        )
    move_ring_lem (of_rect r) can =
        let (s, made, (same, closed, _)) =
          make_series-IsReady laws (raw_points r) true (some default_index_options) can.numeric in
        let moved = subst (λ ps. All IsNumeric (move_points ps dx dy)) (sym same) can.moved in
        let (m, run, (points, closed', kind, ready)) = move-IsReady laws s dx dy moved in
        (
          of_series m,
          rw (series_copy_points_lem (of_rect r), made, run) refl,
          record {
            series = m;
            is_series = refl;
            points = points ∙ ap (λ ps. move_points ps dx dy) same;
            closed = closed' ∙ closed;
            ready = ready;
          },
        )

    move_rings_lem :
        (rs : List (Ring F))
        → All (IsMovable dx dy) rs
        → Returns (AreMoved rs) (move_rings rs dx dy)
    unfolding move_rings
    move_rings_lem [] can = ([], refl, AreMoved.nothing)
    move_rings_lem (r ∷ rs) (can, cans) =
        let (m, run, moved) = move_ring_lem r can in
        let (ms, runs, others) = move_rings_lem rs cans in
        (m ∷ ms, rw (run, runs) refl, AreMoved.more moved others)

    -- Move of a polygon, whose points are not NaN before and after, returns a polygon whose exterior
    -- and holes are those of before, in their order, each a series of the moved points, as closed as
    -- before and with no index or one that holds each of its segments once.
    pub poly_move-AreMoved :
        (p : Poly F) (r : Ring F)
        → p.exterior ≡ some r
        → IsMovable dx dy r
        → All (IsMovable dx dy) p.holes
        → Returns (IsMovedPoly p r) (poly_move (some p) dx dy)
    unfolding poly_move
    poly_move-AreMoved p r e can cans =
        let (m, run, moved) = move_ring_lem r can in
        let (ms, runs, others) = move_rings_lem p.holes cans in
        let o : Poly F = record { exterior = some m; holes = ms } in
        (some o, rw (e, run, runs) refl, (o, refl, m, refl, moved, others))
