-- ===== src/Ring/Box.antt =====
-- A rectangle as a ring: whether it contains a point, by casting a ray at its four segments.
pub mod Tests
pub mod Within
use geometry.Prelude.{
  ℕ, zero, suc, ◌<◌, ◌≡◌, refl, sym, ◌∙◌, Bool, true, false, not, ◌&&◌, ◌||◌, List, [], ◌∷◌, inl,
  inr, arith,
}
use geometry.Prelude.Tests.{◌==◌, if◌then◌else◌, Bool-cases}
use geometry.Prelude.Lists.{keep}
use geometry.Prelude.Counts.{count, count-keep, range_from, range_from_bounds}
use geometry.Prelude.Run.{Run, ok, Returns}
use geometry.Float.{Float, less, same, at_most, IsNumber}
use geometry.Float.Laws.{IsOrdered, IsExtended, is_between, at_most_lem, less_trans, trichotomy}
use geometry.Float.Between.{flat_between, sorted_between, spans}
use geometry.Point.{Point, IsNumeric}
use geometry.Segment.{Segment, Rect, seg, rect}
use geometry.Segment.Raycast.{RaycastResult, raycast, step_off, neither, inside, on_top}
use geometry.Segment.Raycast.Ends.{IsRising, step_off_comm, step_off-IsOff}
use geometry.Segment.Raycast.Axis.{level_raycast, upright_raycast}
use geometry.Search.{each, is_hit, scan}
use geometry.Search.Scan.{scan-each}
use geometry.Rect.{
  south, east, north, west, segment_at, intersects_rect, contains_point, num_segments,
}
use geometry.Rect.Order.{IsNumericRect}
use geometry.Ring.{of_rect, search_ring, search_rect}
use geometry.Ring.Points.{ring_contains_point, contains_point_searcher, ray_line, no_hit}
use geometry.Ring.Seen.{seen}
use geometry.Ring.Tally.{tally, IsCast, each-tally}

module _ {ℓ} {F : Type ℓ} ⦃fl : Float F⦄ where
  -- strictly inside
  abbrev pub encloses_point : Rect F → Point F → Bool
  encloses_point r p = less r.min.x p.x && less p.x r.max.x && less r.min.y p.y && less p.y r.max.y

  abbrev pub is_upright : Rect F → Bool
  is_upright r = at_most r.min.x r.max.x && at_most r.min.y r.max.y

  -- what Raycast says of a point level with a segment from left to right, and beside one up or
  -- down from which the ray stepped off to z
  abbrev level_cast : F → F → F → RaycastResult
  level_cast x a b = if is_between x a b then on_top else neither

  abbrev upright_cast : F → F → Bool → RaycastResult
  upright_cast x b crosses =
      if same x b then on_top else if less x b && crosses then inside else neither

  -- the same of the four segments of a rectangle
  abbrev box_cast : Rect F → Point F → F → ℕ → RaycastResult
  box_cast r p z zero = level_cast p.x r.min.x r.max.x
  box_cast r p z (suc zero) = upright_cast p.x r.max.x (is_between z r.min.y r.max.y)
  box_cast r p z (suc (suc zero)) = level_cast p.x r.max.x r.min.x
  box_cast r p z _ = upright_cast p.x r.min.x (is_between z r.max.y r.min.y)

module _ {ℓ} {F : Type ℓ} ⦃fl : Float F⦄ (laws : IsOrdered F) (more : IsExtended F)
    (rising : IsRising F) (r : Rect F) (p : Point F) (numbers : IsNumericRect r)
    (numeric : IsNumeric p) (upright : is_upright r ≡ true) (low : less r.max.y fl.inf ≡ true) where
  level_known :
      (a b : Point F)
      → same a.y b.y ≡ true
      → less a.y fl.inf ≡ true
      → less b.y fl.inf ≡ true
      → is_between p.y a.y b.y ≡ true
      → raycast (seg a b) p ≡ ok (level_cast p.x a.x b.x)
  level_known a b flat ha hb met =
      let (z, run, found) = step_off-IsOff laws rising a.y b.y ha hb p.y in
      let (off, _, number) = found numeric.1 in
      let at : same p.y a.y ≡ true = ground (arith, flat_between laws p.y a.y b.y numeric.1 flat) in
      level_raycast laws more p a b z run number numeric.0 at flat off

  seen_south : intersects_rect (rect (south r)) (ray_line p) ≡ is_between p.y r.min.y r.min.y
  seen_south = seen laws more p _ _ numeric numbers.0 (numbers.1.0, numbers.0.1)

  seen_east : intersects_rect (rect (east r)) (ray_line p) ≡ is_between p.y r.min.y r.max.y
  seen_east = seen laws more p _ _ numeric (numbers.1.0, numbers.0.1) numbers.1

  seen_north : intersects_rect (rect (north r)) (ray_line p) ≡ is_between p.y r.max.y r.max.y
  seen_north = seen laws more p _ _ numeric numbers.1 (numbers.0.0, numbers.1.1)

  seen_west : intersects_rect (rect (west r)) (ray_line p) ≡ is_between p.y r.max.y r.min.y
  seen_west = seen laws more p _ _ numeric (numbers.0.0, numbers.1.1) numbers.0

  low_min : less r.min.y fl.inf ≡ true
  low_min = ground (
    arith,
    less_trans laws r.min.y r.max.y fl.inf,
    laws.less_cotrans r.max.y r.min.y fl.inf numbers.0.1,
    laws.same_comm r.min.y r.max.y,
    laws.same_not_less r.max.y r.min.y,
  )

  module _ (z : F) (stepped : step_off 3 p.y r.min.y r.max.y ≡ ok z)
      (off_min : same z r.min.y ≡ false) (off_max : same z r.max.y ≡ false) (number : IsNumber z)
      (allow : Bool) where
    -- Raycast says this of every segment that is seen.
    casts :
        (i : ℕ)
        → i < 4
        → is_hit (segment_at r) (ray_line p) i ≡ true
        → IsCast (segment_at r) p (box_cast r p z) allow i
    unfolding segment_at
    casts zero h hit =
        (south r, refl, level_known _ _ numbers.0.1 low_min low_min (sym seen_south ∙ hit))
    casts (suc zero) h hit = (
      east r,
      refl,
      upright_raycast laws more p _ _ z stepped number numeric.0 (sym seen_east ∙ hit) numbers.1.0
          (numbers.0.1, numbers.1.1) off_min,
    )
    casts (suc (suc zero)) h hit =
        (north r, refl, level_known _ _ numbers.1.1 low low (sym seen_north ∙ hit))
    casts (suc (suc (suc zero))) h hit = (
      west r,
      refl,
      upright_raycast laws more p _ _ z (step_off_comm 3 p.y r.max.y r.min.y ∙ stepped) number
          numeric.0 (sym seen_west ∙ hit) numbers.0.0 (numbers.1.1, numbers.0.1) off_max,
    )
    casts (suc (suc (suc (suc i)))) h hit = absurd (omega arith)

    known :
        (i : ℕ)
        → 0 < count i (keep (is_hit (segment_at r) (ray_line p)) (range_from 0 4))
        → IsCast (segment_at r) p (box_cast r p z) allow i
    known i h =
        let hit = is_hit (segment_at r) (ray_line p) in
        let counted = count-keep hit i (range_from 0 4) in
        let hit_i : hit i ≡ true = ground (arith, counted) in
        let (_, below) = range_from_bounds i 0 4 (ground (arith, counted)) in
        casts i (omega arith) hit_i

    -- Between the heights the ray stays where it is.
    stays : less r.min.y p.y ≡ true → less p.y r.max.y ≡ true → is_between z r.min.y r.max.y ≡ true
    unfolding step_off
    stays h k =
        let clear : same p.y r.min.y ≡ false =
          ground (arith, laws.same_not_less r.min.y p.y, laws.same_comm p.y r.min.y) in
        let clear' : same p.y r.max.y ≡ false = ground (arith, laws.same_not_less p.y r.max.y) in
        let run : step_off 3 p.y r.min.y r.max.y ≡ ok p.y = rw (clear, clear') refl in
        let e : ok p.y ≡ ok z = sym run ∙ stepped in
        let e' : p.y ≡ z = cc in rw (← e') (ground (arith, less_trans laws r.min.y p.y r.max.y))

    decide :
        tally
          (box_cast r p z)
          allow
          (keep (is_hit (segment_at r) (ray_line p)) (range_from 0 4))
          false
        ≡ (if allow then contains_point r p else encloses_point r p)
    unfolding segment_at contains_point
    decide =
        let across =
          sorted_between laws p.x r.min.x r.max.x numeric.0 numbers.0.0 numbers.1.0
            (ground arith) in
        let up =
          sorted_between laws p.y r.min.y r.max.y numeric.1 numbers.0.1 numbers.1.1
            (ground arith) in
        let crossing =
          sorted_between laws z r.min.y r.max.y number numbers.0.1 numbers.1.1 (ground arith) in
        rw
          (
            seen_south,
            seen_east,
            seen_north,
            seen_west,
            flat_between laws p.y r.min.y r.min.y numeric.1 numbers.0.1,
            flat_between laws p.y r.max.y r.max.y numeric.1 numbers.1.1,
            up.0,
            up.1,
          )
          (ground (
            arith,
            across,
            crossing,
            stays,
            trichotomy laws p.x r.min.x numeric.0 numbers.0.0,
            trichotomy laws p.x r.max.x numeric.0 numbers.1.0,
            trichotomy laws r.min.x r.max.x numbers.0.0 numbers.1.0,
            trichotomy laws p.y r.min.y numeric.1 numbers.0.1,
            trichotomy laws p.y r.max.y numeric.1 numbers.1.1,
            trichotomy laws r.min.y r.max.y numbers.0.1 numbers.1.1,
            laws.less_cotrans p.x r.max.x r.min.x numbers.1.0,
            laws.less_cotrans r.max.x r.min.x p.x numbers.0.0,
            laws.less_cotrans p.y r.max.y r.min.y numbers.1.1,
            laws.less_cotrans r.max.y r.min.y p.y numbers.0.1,
          ))

  segments_exist : (j : ℕ) → j < 4 → (g : Segment F) × (segment_at r j ≡ ok g)
  unfolding segment_at
  segments_exist zero h = (south r, refl)
  segments_exist (suc zero) h = (east r, refl)
  segments_exist (suc (suc zero)) h = (north r, refl)
  segments_exist (suc (suc (suc zero))) h = (west r, refl)
  segments_exist (suc (suc (suc (suc j)))) h = absurd (omega arith)

  -- On a rectangle without NaN, its least corner no greater than its greatest and this below +Inf,
  -- ringContainsPoint returns for every point without NaN: it reports a hit where the rectangle
  -- contains the point if the edge is allowed, and where the point is strictly inside if it is not.
  -- Nextafter must rise below +Inf, and infinities and quotients must be as IsExtended says.
  pub ring_contains_point-rect :
      (allow : Bool)
      → Returns
          (λ t. t.hit ≡ (if allow then contains_point r p else encloses_point r p))
          (ring_contains_point (of_rect r) p allow)
  unfolding ring_contains_point search_ring search_rect num_segments
  ring_contains_point-rect allow =
      let (z, stepped, found) = step_off-IsOff laws rising r.min.y r.max.y low_min low p.y in
      let (off_min, off_max, number) = found numeric.1 in
      let iter = contains_point_searcher p allow in
      let (t, run, answer) =
        each-tally (segment_at r) p (box_cast r p z) allow _ no_hit
          (known z stepped off_min off_max number allow) in
      let scanned =
        scan-each (segment_at r) (ray_line p) iter 4 0 no_hit
          (λ j h. segments_exist j (omega arith)) in
      (t.0, rw (scanned, run) refl, answer ∙ decide z stepped off_min off_max number allow)
