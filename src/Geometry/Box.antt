-- ===== src/Geometry/Box.antt =====
-- A rectangle, and the polygon whose exterior it is: what each of them contains.
pub mod Tests
use mathlib.Core.Path.{subst}
use geometry.Prelude.{
  ℕ, zero, suc, ◌<◌, ◌≡◌, refl, sym, ap, ◌∙◌, Bool, true, false, not, ◌&&◌, ◌||◌, Option, none,
  some, List, inl, inr, arith,
}
use geometry.Prelude.Tests.{ltb, Bool-cases}
use geometry.Prelude.Lists.{length, get_elem?, get_elem?-some, All, All-get_elem?}
use geometry.Prelude.Run.{Run, ok, or_panic}
use geometry.Float.{Float, less}
use geometry.Float.Laws.{IsOrdered, IsExtended}
use geometry.Point.{Point, IsNumeric}
use geometry.Segment.{Rect}
use geometry.Segment.Raycast.Ends.{IsRising}
use geometry.Rect
use geometry.Rect.Order.{IsNumericRect}
use geometry.Series
use geometry.Series.{BaseSeries, IndexOptions, empty}
use geometry.Series.Process.Bounds.{process_points-Encloses, Encloses, IsUpright}
use geometry.Index.{make_series}
use geometry.Index.Answers.{make_series-IsReady}
use geometry.Index.Made.{made-parts}
use geometry.Line.{rect_contains_line}
use geometry.Line.Inside.{made-IsNumericRect}
use geometry.Ring.{Ring, of_series, of_rect}
use geometry.Ring.Rings.{ring_contains_line, ring_contains_ring, contains_ring_within}
use geometry.Ring.Box.{is_upright, ring_contains_point-rect}
use geometry.Ring.Box.Within.{IsBoxed, rect-IsBoxed, ring_contains_ring-rect}
use geometry.Poly.{
  Poly, rect_poly, contains_point_ex, find_hole, poly_contains_point, poly_contains_rect,
  poly_contains_line, poly_contains_poly, rect_contains_poly, poly_empty, poly_rect, no_hole,
}
use geometry.Geometry.{
  Geometry, of_point, of_line, of_rect, of_poly, contains_point, contains_rect, contains_line,
  contains_poly,
}

module _ {ℓ} {F : Type ℓ} ⦃fl : Float F⦄ where
  -- the method for the other's type
  unfoldable pub contains : ℕ → Geometry F → Geometry F → Run Bool
  contains fuel g (of_point p) = contains_point g p
  contains fuel g (of_rect r) = contains_rect fuel g r
  contains fuel g (of_line l) = contains_line fuel g l
  contains fuel g (of_poly p) = contains_poly fuel g p

  -- What makeSeries returns for points without NaN.
  pub record IsMade (s : BaseSeries F) : Type ℓ where
    pub points : List (Point F)
    pub closed : Bool
    pub opts : Option IndexOptions
    pub numeric : All IsNumeric points
    pub made : make_series points closed opts ≡ ok s

  -- No coordinate is NaN, a rectangle is not the wrong way round, and a line and the exterior of a
  -- polygon are what makeSeries returns.
  pub data IsSound : Geometry F → Type ℓ where
    sound_point : (p : Point F) → IsNumeric p → IsSound (of_point p)
    sound_rect : (r : Rect F) → IsNumericRect r → IsUpright r → IsSound (of_rect r)
    sound_line : (s : BaseSeries F) → IsMade s → IsSound (of_line (some s))
    sound_poly :
        (s : BaseSeries F) (holes : List (Ring F))
        → IsMade s
        → IsSound (of_poly (some (record { exterior = some (of_series s); holes = holes })))

module _ {ℓ} {F : Type ℓ} ⦃fl : Float F⦄ (laws : IsOrdered F) where
  Encloses-IsUpright : (s : Rect F) (p : Point F) → IsNumeric p → Encloses s p → IsUpright s
  Encloses-IsUpright s p numeric enclosed = ground (
    arith,
    laws.less_cotrans s.max.x p.x s.min.x numeric.0,
    laws.less_cotrans s.max.y p.y s.min.y numeric.1,
  )

  made-IsBoxed : (s : BaseSeries F) → IsMade s → empty s ≡ false → IsBoxed (of_series s)
  unfolding empty Series.num_points Series.point_at
  made-IsBoxed s is filled =
      let (t, run, (same_points, same_closed, _)) =
        make_series-IsReady laws is.points is.closed is.opts is.numeric in
      let e : t ≡ s = cc in
      let e_points = subst (λ (b : BaseSeries F). b.points ≡ is.points) e same_points in
      let e_closed = subst (λ (b : BaseSeries F). b.closed ≡ is.closed) e same_closed in
      let (p, processed, encloses) = process_points-Encloses laws is.points is.closed in
      let (same_rect, _) = made-parts laws is.points is.closed is.numeric is.opts s is.made in
      let long : (is.closed && ltb (length is.points) 3 || ltb (length is.points) 2) ≡ false =
        rw (← e_points, ← e_closed) filled in
      let enclosed = λ (i : ℕ) (h : i < length is.points).
        let (q, at) = get_elem?-some is.points i h in
        let result : (q : Point F) × (get_elem? is.points i ≡ some q)
            × IsNumeric q
            × Encloses s.rect q =
          (
            q,
            at,
            All-get_elem? IsNumeric is.points i is.numeric at,
            rw same_rect (encloses long i q at),
          ) in
        result in
      let (first, _, numeric, within) = enclosed 0 (ground arith) in
      record {
        in_bounds = λ i h.
            let (q, at, n, w) = enclosed i (rw (← e_points) h) in
            (q, ap (λ ps. or_panic (get_elem? ps i)) e_points ∙ ap or_panic at, n, w);
        numbers = made-IsNumericRect laws is.points is.closed is.numeric is.opts s is.made long;
        upright = Encloses-IsUpright s.rect first numeric within;
      }

  module _ (more : IsExtended F) (rising : IsRising F) (r : Rect F) (numbers : IsNumericRect r)
      (upright : is_upright r ≡ true) (low : less r.max.y fl.inf ≡ true) where
    empty_inside :
        (s : BaseSeries F)
        → empty s ≡ true
        → ring_contains_ring (of_rect r) (of_series s) true ≡ ok false
    unfolding ring_contains_ring contains_ring_within Rect.empty
    empty_inside s bare = rw bare refl

    -- ringContainsRing of the rectangle, of a series that may be empty
    made_inside :
        (s : BaseSeries F)
        → IsMade s
        → ring_contains_ring (of_rect r) (of_series s) true
          ≡ ok (not (empty s) && Rect.contains_rect r s.rect)
    made_inside s made = elim (Bool-cases (empty s)) [
      | inl bare ↦ rw bare (empty_inside s bare)
      | inr filled ↦ rw filled (
          ring_contains_ring-rect laws more rising r numbers upright low (of_series s)
            (made-IsBoxed s made filled) filled)
    ]

    point_inside :
        (p : Point F)
        → IsNumeric p
        → poly_contains_point (rect_poly r) p ≡ ok (Rect.contains_point r p)
    unfolding poly_contains_point contains_point_ex find_hole
    point_inside p numeric =
        let (t, run, answer) =
          ring_contains_point-rect laws more rising r p numbers numeric upright low true in
        elim (Bool-cases t.hit) [
          | inl hit ↦ rw (run, hit, ← answer, hit) refl
          | inr miss ↦ rw (run, miss, ← answer, miss) refl
        ]

    rect_inside :
        (o : Rect F)
        → IsNumericRect o
        → IsUpright o
        → poly_contains_rect (rect_poly r) o ≡ ok (Rect.contains_rect r o)
    unfolding poly_contains_rect poly_contains_poly no_hole Rect.empty
    rect_inside o n u =
        let inside =
          ring_contains_ring-rect laws more rising r numbers upright low (of_rect o)
            (rect-IsBoxed laws o n u) refl in
        elim (Bool-cases (Rect.contains_rect r o)) [
          | inl holds ↦ rw (inside, holds) refl
          | inr fails ↦ rw (inside, fails) refl
        ]

    line_inside :
        (s : BaseSeries F)
        → IsMade s
        → poly_contains_line (rect_poly r) (some s) ≡ rect_contains_line r (some s)
    unfolding poly_contains_line rect_contains_line ring_contains_line no_hole
    line_inside s made = elim (Bool-cases (not (empty s) && Rect.contains_rect r s.rect)) [
      | inl holds ↦ rw (made_inside s made, holds) refl
      | inr fails ↦ rw (made_inside s made, fails) refl
    ]

    poly_inside :
        (s : BaseSeries F) (holes : List (Ring F))
        → IsMade s
        → poly_contains_poly
            (rect_poly r)
            (some (record { exterior = some (Ring.of_series s); holes = holes }))
          ≡ rect_contains_poly r
              (some (record { exterior = some (Ring.of_series s); holes = holes }))
    unfolding poly_contains_poly rect_contains_poly poly_empty poly_rect no_hole
    poly_inside s holes made = elim (Bool-cases (not (empty s) && Rect.contains_rect r s.rect)) [
      | inl holds ↦ rw (made_inside s made, holds) refl
      | inr fails ↦ rw (made_inside s made, fails) refl
    ]

    -- A rectangle without NaN, not the wrong way round and with its top below +Inf contains what the
    -- polygon contains whose exterior it is: of points without NaN, of rectangles without NaN that are
    -- not the wrong way round, and of lines and polygons whose series, the exterior of the polygon, is
    -- one that makeSeries returns for points without NaN. Nextafter must rise below +Inf, and
    -- infinities and quotients must be as IsExtended says.
    pub contains-rect_poly :
        (fuel : ℕ) (g : Geometry F)
        → IsSound g
        → contains fuel (of_poly (rect_poly r)) g ≡ contains fuel (of_rect r) g
    unfolding contains contains_point contains_rect contains_line contains_poly
    contains-rect_poly fuel (of_point p) (sound_point p' numeric) = point_inside p numeric
    contains-rect_poly fuel (of_rect o) (sound_rect o' n u) = rect_inside o n u
    contains-rect_poly fuel (of_line l) (sound_line s made) = line_inside s made
    contains-rect_poly fuel (of_poly p) (sound_poly s holes made) = poly_inside s holes made
