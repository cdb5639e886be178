-- ===== src/Rect.antt =====
-- rect.go: rectangles, less what takes a line or a polygon.
pub mod Order
use geometry.Prelude.{ℕ, zero, suc, Bool, true, false, ◌&&◌, ◌||◌, Option, none, List, [], ◌∷◌}
use geometry.Prelude.Tests.{if◌then◌else◌}
use geometry.Prelude.Run.{Run, ok, panic}
use geometry.Float.{Float, ◌⊕◌, ◌⊖◌, ◌⊗◌, ◌⊘◌, const, less, at_most}
use geometry.Point.{Point, pt, same_point}
use geometry.Segment.{Segment, Rect, seg, box}

module _ {ℓ} {F : Type ℓ} where
  unfoldable pub index : Rect F → Option (List ℕ)
  index r = none

  unfoldable pub clockwise : Rect F → Bool
  clockwise r = false

  unfoldable pub num_points : Rect F → ℕ
  num_points r = 5

  unfoldable pub num_segments : Rect F → ℕ
  num_segments r = 4

  unfoldable pub point_at : Rect F → ℕ → Run (Point F)
  point_at r zero = ok (pt r.min.x r.min.y)
  point_at r (suc zero) = ok (pt r.max.x r.min.y)
  point_at r (suc (suc zero)) = ok (pt r.max.x r.max.y)
  point_at r (suc (suc (suc zero))) = ok (pt r.min.x r.max.y)
  point_at r (suc (suc (suc (suc zero)))) = ok (pt r.min.x r.min.y)
  point_at r _ = panic

  unfoldable pub raw_points : Rect F → List (Point F)
  raw_points r =
      pt r.min.x r.min.y
      ∷ pt r.max.x r.min.y
      ∷ pt r.max.x r.max.y
      ∷ pt r.min.x r.max.y
      ∷ pt r.min.x r.min.y
      ∷ []

  abbrev pub north_west : Rect F → Point F
  north_west r = pt r.min.x r.max.y

  abbrev pub south_west : Rect F → Point F
  south_west r = r.min

  abbrev pub south_east : Rect F → Point F
  south_east r = pt r.max.x r.min.y

  abbrev pub north_east : Rect F → Point F
  north_east r = r.max

  abbrev pub south : Rect F → Segment F
  south r = seg (south_west r) (south_east r)

  abbrev pub east : Rect F → Segment F
  east r = seg (south_east r) (north_east r)

  abbrev pub north : Rect F → Segment F
  north r = seg (north_east r) (north_west r)

  abbrev pub west : Rect F → Segment F
  west r = seg (north_west r) (south_west r)

  unfoldable pub closed : Rect F → Bool
  closed r = true

  unfoldable pub segment_at : Rect F → ℕ → Run (Segment F)
  segment_at r zero = ok (south r)
  segment_at r (suc zero) = ok (east r)
  segment_at r (suc (suc zero)) = ok (north r)
  segment_at r (suc (suc (suc zero))) = ok (west r)
  segment_at r _ = panic

  unfoldable pub empty : Rect F → Bool
  empty r = false

  unfoldable pub convex : Rect F → Bool
  convex r = true

module _ {ℓ} {F : Type ℓ} ⦃fl : Float F⦄ where
  -- Go's == on two rectangles
  abbrev pub same_rect : Rect F → Rect F → Bool
  same_rect r o = same_point r.min o.min && same_point r.max o.max

  unfoldable pub move : Rect F → F → F → Rect F
  move r dx dy = box (pt (r.min.x ⊕ dx) (r.min.y ⊕ dy)) (pt (r.max.x ⊕ dx) (r.max.y ⊕ dy))

  unfoldable pub center : Rect F → Point F
  center r = pt ((r.max.x ⊕ r.min.x) ⊘ const 2) ((r.max.y ⊕ r.min.y) ⊘ const 2)

  unfoldable pub area : Rect F → F
  area r = (r.max.x ⊖ r.min.x) ⊗ (r.max.y ⊖ r.min.y)

  unfoldable pub contains_point : Rect F → Point F → Bool
  contains_point r p =
      at_most r.min.x p.x && at_most p.x r.max.x && at_most r.min.y p.y && at_most p.y r.max.y

  unfoldable pub intersects_point : Rect F → Point F → Bool
  unfolding contains_point
  intersects_point r p = contains_point r p

  unfoldable pub contains_rect : Rect F → Rect F → Bool
  contains_rect r o =
      if less o.min.x r.min.x || less r.max.x o.max.x
      then false
      else if less o.min.y r.min.y || less r.max.y o.max.y
      then false
      else true

  unfoldable pub intersects_rect : Rect F → Rect F → Bool
  intersects_rect r o =
      if less o.max.y r.min.y || less r.max.y o.min.y
      then false
      else if less o.max.x r.min.x || less r.max.x o.min.x
      then false
      else true

  -- the lesser of a coordinate of the rectangle and one of the other, and the greater
  abbrev lower : F → F → F
  lower mine other = if less other mine then other else mine

  abbrev upper : F → F → F
  upper mine other = if less mine other then other else mine

  unfoldable pub union : Rect F → Rect F → Rect F
  union r o =
      box (pt (lower r.min.x o.min.x) (lower r.min.y o.min.y))
        (pt (upper r.max.x o.max.x) (upper r.max.y o.max.y))

-- Point.Rect, Point.ContainsRect and Point.IntersectsRect, of point.go
unfoldable pub point_rect {ℓ} : {F : Type ℓ} → Point F → Rect F
point_rect p = box p p

module _ {ℓ} {F : Type ℓ} ⦃fl : Float F⦄ where
  unfoldable pub point_contains_rect : Point F → Rect F → Bool
  unfolding point_rect
  point_contains_rect p r = same_rect (point_rect p) r

  unfoldable pub point_intersects_rect : Point F → Rect F → Bool
  unfolding contains_point
  point_intersects_rect p r = contains_point r p
