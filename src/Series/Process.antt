-- ===== src/Series/Process.antt =====
-- processPoints of series.go: one pass over the points for the bounding rectangle, the winding
-- order and the convexity.
pub mod Bounds
pub mod Least
pub mod Shape
pub mod Corners
use geometry.Prelude.{ℕ, zero, suc, ◌+◌, ◌-◌, Bool, true, false, not, ◌&&◌, ◌||◌, List, [], ◌∷◌}
use geometry.Prelude.Tests.{ltb, ◌==◌, if◌then◌else◌}
use geometry.Prelude.Lists.{length, get_elem?}
use geometry.Prelude.Run.{Run, ok, ◌>>=◌, or_panic}
use geometry.Float.{Float, ◌⊕◌, ◌⊖◌, ◌⊗◌, const, less}
use geometry.Point.{Point, pt}
use geometry.Segment.{Rect, box}

-- `dir`: 0 until a turn is seen, then -1 or 1
pub data Turn : Type 0 where
  straight negative positive : Turn

-- the variables of the loop
pub record Pass {ℓ} (F : Type ℓ) : Type ℓ where
  pub rect : Rect F
  pub concave : Bool
  pub dir : Turn
  pub cwc : F

-- the named results
pub record Processed {ℓ} (F : Type ℓ) : Type ℓ where
  pub convex : Bool
  pub rect : Rect F
  pub clockwise : Bool

module _ {ℓ} {F : Type ℓ} ⦃fl : Float F⦄ where
  abbrev pub zero_point : Point F
  zero_point = pt (const 0) (const 0)

  -- the zero value Rect{}
  abbrev pub zero_rect : Rect F
  zero_rect = box zero_point zero_point

  -- one axis of the inflation: the new lower and upper bound
  unfoldable pub stretch : F → F → F → F × F
  stretch lo hi v = if less v lo then (v, hi) else if less hi v then (lo, v) else (lo, hi)

  unfoldable pub inflate : Rect F → Point F → Rect F
  inflate r p =
      let (x0, x1) = stretch r.min.x r.max.x p.x in
      let (y0, y1) = stretch r.min.y r.max.y p.y in box (pt x0 y0) (pt x1 y1)

  -- the direction of the turn at b, against the direction so far
  unfoldable pub turn : F → Turn × Bool → Turn × Bool
  turn z (straight, concave) =
      if less z (const 0)
      then (negative, concave)
      else if less (const 0) z
      then (positive, concave)
      else (straight, concave)
  turn z (negative, concave) =
      if less z (const 0)
      then (negative, concave)
      else if less (const 0) z
      then (negative, true)
      else (negative, concave)
  turn z (positive, concave) = if less z (const 0) then (positive, true) else (positive, concave)

  -- the body of the loop at point a, of index i, with the two points after it
  unfoldable pub visit : ℕ → Pass F → Point F → Point F → Point F → Pass F
  unfolding inflate stretch turn
  visit i s a b c =
      let z = (b.x ⊖ a.x) ⊗ (c.y ⊖ b.y) ⊖ (b.y ⊖ a.y) ⊗ (c.x ⊖ b.x) in
      let (dir, concave) = turn z (s.dir, s.concave) in
      record {
        rect = if i == 0 then box a a else inflate s.rect a;
        concave = if s.concave then true else concave;
        dir = if s.concave then s.dir else dir;
        cwc = s.cwc ⊕ (b.x ⊖ a.x) ⊗ (b.y ⊕ a.y);
      }

  unfoldable pub pass_from : List (Point F) → ℕ → ℕ → Pass F → Run (Pass F)
  pass_from points zero i s = ok s
  pass_from points (suc rounds) i s = do
    a ← or_panic (get_elem? points i)
    let n = length points
    b ← or_panic (get_elem? points (if i == n - 1 then 0 else i + 1))
    c ← or_panic (get_elem? points (if i == n - 1 then 1 else if i == n - 2 then 0 else i + 2))
    pass_from points rounds (i + 1) (visit i s a b c)

  abbrev pub start : Pass F
  start = record { rect = zero_rect; concave = false; dir = straight; cwc = const 0 }

  unfoldable pub process_points : List (Point F) → Bool → Run (Processed F)
  unfolding pass_from visit
  process_points points closed =
      if closed && ltb (length points) 3 || ltb (length points) 2
      then ok (record { convex = false; rect = zero_rect; clockwise = false })
      else do
        s ← pass_from points (length points) 0 start
        ok (record { convex = not s.concave; rect = s.rect; clockwise = less (const 0) s.cwc })
