-- ===== src/Poly.antt =====
-- poly.go: polygons with holes, and what lines, points and rectangles ask of them. A *Poly is nil,
-- or the polygon; an exterior of `none` is a nil interface.
pub mod Same
pub mod Moved
use geometry.Prelude.{
  ℕ, zero, suc, ◌+◌, Bool, true, false, not, ◌&&◌, ◌||◌, Option, none, some, List, [], ◌∷◌,
}
use geometry.Prelude.Tests.{if◌then◌else◌}
use geometry.Prelude.Run.{Run, ok, ◌>>=◌}
use geometry.Float.{Float, same}
use geometry.Point.{Point}
use geometry.Segment.{Rect}
use geometry.Rect.{contains_rect, point_rect, same_rect}
use geometry.Series.{BaseSeries, IndexOptions, default_index_options, empty}
use geometry.Series.Process.{zero_rect}
use geometry.Index
use geometry.Index.{make_series}
use geometry.Ring.{
  Ring, of_series, of_rect, new_ring, bounds, is_empty, is_clockwise, count_points, nth_point,
}
use geometry.Ring.Points.{ring_contains_point}
use geometry.Ring.Rings.{
  ring_contains_ring, ring_intersects_ring, ring_contains_line, ring_intersects_line,
}
use geometry.Line.{unless_nil, line_contains_line}

pub record Poly {ℓ} (F : Type ℓ) : Type ℓ where
  pub exterior : Option (Ring F)
  pub holes : List (Ring F)

module _ {ℓ} {F : Type ℓ} ⦃fl : Float F⦄ where
  new_holes : List (List (Point F)) → Option IndexOptions → Run (List (Ring F))
  new_holes [] opts = ok []
  new_holes (points ∷ rest) opts = do
    hole ← new_ring points opts
    others ← new_holes rest opts
    ok (hole ∷ others)

  unfoldable pub new_poly :
      List (Point F) → List (List (Point F)) → Option IndexOptions → Run (Poly F)
  unfolding new_holes
  new_poly points holes opts = do
    exterior ← new_ring points opts
    rings ← new_holes holes opts
    ok (record { exterior = some exterior; holes = rings })

  -- The exterior of a polygon, where `other` is the answer without one.
  abbrev with_exterior {κ} : {A : Type κ} → Option (Poly F) → A → (Ring F → A) → A
  with_exterior none other f = other
  with_exterior (some p) other f = elim p.exterior [ none ↦ other | some r ↦ f r ]

  -- poly.Holes
  abbrev holes_of : Option (Poly F) → List (Ring F)
  holes_of none = []
  holes_of (some p) = p.holes

  -- &Poly{Exterior: rect}
  abbrev pub rect_poly : Rect F → Option (Poly F)
  rect_poly r = some (record { exterior = some (of_rect r); holes = [] })

  unfoldable pub poly_clockwise : Option (Poly F) → Bool
  poly_clockwise p = with_exterior p false is_clockwise

  unfoldable pub poly_empty : Option (Poly F) → Bool
  poly_empty p = with_exterior p true is_empty

  unfoldable pub poly_rect : Option (Poly F) → Rect F
  poly_rect p = with_exterior p zero_rect bounds

  -- for i := …; n rounds { points[i] = series.PointAt(i) }
  unfoldable pub copy_from : Ring F → ℕ → ℕ → Run (List (Point F))
  copy_from r zero i = ok []
  copy_from r (suc n) i = do p ← nth_point r i; rest ← copy_from r n (i + 1); ok (p ∷ rest)

  -- seriesCopyPoints
  unfoldable pub series_copy_points : Ring F → Run (List (Point F))
  series_copy_points r = copy_from r (count_points r) 0

  -- A rectangle becomes a series first.
  unfoldable pub move_ring : Ring F → F → F → Run (Ring F)
  move_ring (of_series s) dx dy = do moved ← Index.move s dx dy; ok (of_series moved)
  move_ring (of_rect r) dx dy = do
    points ← series_copy_points (of_rect r)
    s ← make_series points true (some default_index_options)
    moved ← Index.move s dx dy
    ok (of_series moved)

  unfoldable pub move_rings : List (Ring F) → F → F → Run (List (Ring F))
  move_rings [] dx dy = ok []
  move_rings (r ∷ rs) dx dy = do
    moved ← move_ring r dx dy
    others ← move_rings rs dx dy
    ok (moved ∷ others)

  unfoldable pub poly_move : Option (Poly F) → F → F → Run (Option (Poly F))
  unfolding move_rings
  poly_move none dx dy = ok none
  poly_move (some p) dx dy = elim p.exterior [
    | none ↦ ok (some (record { exterior = none; holes = [] }))
    | some r ↦ do
      moved ← move_ring r dx dy
      rings ← move_rings p.holes dx dy
      ok (some (record { exterior = some moved; holes = rings }))
  ]

  -- the first hole, of index i on, that has the point inside
  unfoldable pub find_hole : List (Ring F) → ℕ → Point F → Run (Bool × Option ℕ)
  find_hole [] i p = ok (true, none)
  find_hole (hole ∷ rest) i p = do
    r ← ring_contains_point hole p false
    if r.hit then ok (false, some i) else find_hole rest (i + 1) p

  -- ContainsPointEx, with `none` for -1
  unfoldable pub contains_point_ex : Option (Poly F) → Point F → Run (Bool × Option ℕ)
  contains_point_ex p point = with_exterior p (ok (false, none)) λ r. do
    outer ← ring_contains_point r point true
    if not outer.hit then ok (false, none) else find_hole (holes_of p) 0 point

  unfoldable pub poly_contains_point : Option (Poly F) → Point F → Run Bool
  poly_contains_point p point = do (contains, hole) ← contains_point_ex p point; ok contains

  unfoldable pub poly_intersects_point : Option (Poly F) → Point F → Run Bool
  poly_intersects_point p point = unless_nil p λ q. poly_contains_point (some q) point

  -- No hole passes the test.
  unfoldable pub no_hole : List (Ring F) → (Ring F → Run Bool) → Run Bool
  no_hole [] test = ok true
  no_hole (hole ∷ rest) test = do found ← test hole; if found then ok false else no_hole rest test

  unfoldable pub poly_contains_line : Option (Poly F) → Option (BaseSeries F) → Run Bool
  poly_contains_line p l = with_exterior p (ok false) λ r. unless_nil l λ line. do
    inside ← ring_contains_line r line true
    if not inside
        then ok false
        else no_hole (holes_of p) (λ hole. ring_intersects_line hole line false)

  unfoldable pub poly_intersects_line : Option (Poly F) → Option (BaseSeries F) → Run Bool
  poly_intersects_line p l = with_exterior p (ok false) λ r. unless_nil l λ line. do
    meets ← ring_intersects_line r line true
    if meets then no_hole (holes_of p) (λ hole. ring_contains_line hole line false) else ok false

  -- the loop over the holes of the other polygon for one that contains the hole
  unfoldable pub is_covered : List (Ring F) → Ring F → Run Bool
  is_covered [] hole = ok false
  is_covered (other ∷ rest) hole = do
    contains ← ring_contains_ring other hole true
    if contains then ok true else is_covered rest hole

  unfoldable pub poly_contains_poly : Option (Poly F) → Option (Poly F) → Run Bool
  poly_contains_poly p o = with_exterior p (ok false) λ r. with_exterior o (ok false) λ s. do
    inside ← ring_contains_ring r s true
    if not inside
        then ok false
        else no_hole (holes_of p) (λ hole. do
          meets ← ring_intersects_ring hole s false
          if meets then (do c ← is_covered (holes_of o) hole; ok (not c)) else ok false)

  unfoldable pub poly_intersects_poly : Option (Poly F) → Option (Poly F) → Run Bool
  poly_intersects_poly p o = with_exterior p (ok false) λ r. with_exterior o (ok false) λ s. do
    meets ← ring_intersects_ring s r true
    if not meets then ok false else do
      outside ← no_hole (holes_of p) (λ hole. ring_contains_ring hole s false)
      if outside then no_hole (holes_of o) (λ hole. ring_contains_ring hole r false) else ok false

  unfoldable pub poly_contains_rect : Option (Poly F) → Rect F → Run Bool
  poly_contains_rect p r = unless_nil p λ q. poly_contains_poly (some q) (rect_poly r)

  unfoldable pub poly_intersects_rect : Option (Poly F) → Rect F → Run Bool
  poly_intersects_rect p r = unless_nil p λ q. poly_intersects_poly (some q) (rect_poly r)

  -- Line.ContainsPoly, Line.ContainsRect and Line.IntersectsPoly. The line over the diagonal of a
  -- flat polygon is not processed by makeSeries.
  unfoldable pub line_contains_poly : ℕ → Option (BaseSeries F) → Option (Poly F) → Run Bool
  line_contains_poly fuel l p = unless_nil l λ line. unless_nil p λ q.
      let r = poly_rect (some q) in
      let other : BaseSeries F = record {
        closed = false;
        clockwise = false;
        convex = false;
        index_kind = 0;
        index = none;
        rect = r;
        points = r.min ∷ r.max ∷ [];
      } in
      if empty line || poly_empty (some q)
      then ok false
      else if not (same r.min.x r.max.x) && not (same r.min.y r.max.y)
      then ok false
      else line_contains_line fuel (some line) (some other)

  unfoldable pub line_contains_rect : ℕ → Option (BaseSeries F) → Rect F → Run Bool
  line_contains_rect fuel l r =
      unless_nil l λ line. line_contains_poly fuel (some line) (rect_poly r)

  unfoldable pub line_intersects_poly : Option (BaseSeries F) → Option (Poly F) → Run Bool
  line_intersects_poly l p = poly_intersects_line p l

  -- the methods of Point and Rect on a polygon
  unfoldable pub point_contains_poly : Point F → Option (Poly F) → Run Bool
  point_contains_poly p o =
      unless_nil o
        λ q. ok (not (poly_empty (some q)) && same_rect (poly_rect (some q)) (point_rect p))

  unfoldable pub point_intersects_poly : Point F → Option (Poly F) → Run Bool
  point_intersects_poly p o = unless_nil o λ q. poly_intersects_point (some q) p

  unfoldable pub rect_contains_poly : Rect F → Option (Poly F) → Run Bool
  rect_contains_poly r o =
      unless_nil o λ q. ok (not (poly_empty (some q)) && contains_rect r (poly_rect (some q)))

  unfoldable pub rect_intersects_poly : Rect F → Option (Poly F) → Run Bool
  rect_intersects_poly r o = unless_nil o λ q. poly_intersects_rect (some q) r
