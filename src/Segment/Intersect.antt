-- ===== src/Segment/Intersect.antt =====
-- segment.go: tests between two segments.
pub mod Ends
use mathlib.Core.Bool.{xor}
use geometry.Prelude.{Bool, true, false, not, ◌&&◌, ◌||◌}
use geometry.Prelude.Tests.{if◌then◌else◌}
use geometry.Prelude.Run.{Run, ok, ◌>>=◌, or_else, and_then}
use geometry.Float.{Float, ◌⊖◌, ◌⊗◌, ◌⊘◌, const, less, same, at_most}
use geometry.Point.{Point, same_point}
use geometry.Segment.{Segment}
use geometry.Segment.Raycast.{raycast}

module _ {ℓ} {F : Type ℓ} ⦃fl : Float F⦄ where
  unfoldable pub contains_point : Segment F → Point F → Run Bool
  unfolding raycast
  contains_point s p = do r ← raycast s p; ok r.on

  -- On one axis the span of a and b does not meet the span of c and d.
  unfoldable pub is_apart : F → F → F → F → Bool
  is_apart a b c d =
      if less b a
      then (if less d c then less c b || less a d else less d b || less a c)
      else if less d c
      then less c a || less b d
      else less d a || less b c

  -- the part of IntersectsSegment after the tests on the end points
  unfoldable pub crosses : Segment F → Segment F → Run Bool
  unfolding contains_point
  crosses s o =
      let a = s.a in
      let b = s.b in
      let c = o.a in
      let d = o.b in
      let cmpx = c.x ⊖ a.x in
      let cmpy = c.y ⊖ a.y in
      let rx = b.x ⊖ a.x in
      let ry = b.y ⊖ a.y in
      let cmpxr = cmpx ⊗ ry ⊖ cmpy ⊗ rx in
      let sx = d.x ⊖ c.x in
      let sy = d.y ⊖ c.y in
      let cmpxs = cmpx ⊗ sy ⊖ cmpy ⊗ sx in
      let rxs = rx ⊗ sy ⊖ ry ⊗ sx in
      let rxsr = const 1 ⊘ rxs in
      let t = cmpxs ⊗ rxsr in
      let u = cmpxr ⊗ rxsr in
      if same cmpxr (const 0)
      then (if not (
            xor (at_most (c.x ⊖ a.x) (const 0)) (at_most (c.x ⊖ b.x) (const 0))
            || xor (at_most (c.y ⊖ a.y) (const 0)) (at_most (c.y ⊖ b.y) (const 0)))
          then or_else (contains_point s c) (contains_point s d)
          else ok true)
      else if same rxs (const 0)
      then ok false
      else ok
          (at_most (const 0) t && at_most t (const 1) && at_most (const 0) u && at_most u (const 1))

  unfoldable pub intersects_segment : Segment F → Segment F → Run Bool
  unfolding is_apart crosses
  intersects_segment s o =
      if is_apart s.a.y s.b.y o.a.y o.b.y
      then ok false
      else if is_apart s.a.x s.b.x o.a.x o.b.x
      then ok false
      else if same_point s.a o.a || same_point s.a o.b || same_point s.b o.a || same_point s.b o.b
      then ok true
      else crosses s o

  unfoldable pub contains_segment : Segment F → Segment F → Run Bool
  unfolding contains_point
  contains_segment s o = and_then (contains_point s o.a) (contains_point s o.b)
