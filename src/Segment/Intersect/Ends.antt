-- ===== src/Segment/Intersect/Ends.antt =====
-- The calls of Raycast in IntersectsSegment.
use geometry.Prelude.{◌≡◌, refl, Bool, true, false, ◌||◌}
use geometry.Prelude.Tests.{if◌then◌else◌}
use geometry.Prelude.Run.{Run, ok, or_else}
use geometry.Float.{Float, less}
use geometry.Float.Laws.{IsOrdered}
use geometry.Point.{Point, same_point}
use geometry.Segment.{Segment}
use geometry.Segment.Raycast.Ends.{IsRising, raycast_ends}
use geometry.Segment.Intersect.{contains_point, is_apart, crosses, intersects_segment}

-- The call returns.
abbrev pub Ends {ℓ} : {A : Type ℓ} → Run A → Type ℓ
Ends {A} r = (a : A) × (r ≡ ok a)

or_else-Ends : (x y : Run Bool) → Ends x → Ends y → Ends (or_else x y)
or_else-Ends x y (true, e) ends = (true, rw e refl)
or_else-Ends x y (false, e) (b, e') = (b, rw (e, e') refl)

if-Ends {ℓ} : {A : Type ℓ} (b : Bool) (x y : Run A) → Ends x → Ends y → Ends (if b then x else y)
if-Ends true x y h k = h
if-Ends false x y h k = k

module _ {ℓ} {F : Type ℓ} ⦃fl : Float F⦄ (laws : IsOrdered F) (rising : IsRising F) (s : Segment F)
    (a_below : less s.a.y fl.inf ≡ true) (b_below : less s.b.y fl.inf ≡ true) where
  pub contains_point-Ends : (p : Point F) → Ends (contains_point s p)
  unfolding contains_point
  contains_point-Ends p =
      let (r, run, _) = raycast_ends laws rising s p a_below b_below in (r.on, rw run refl)

  crosses-Ends : (o : Segment F) → Ends (crosses s o)
  unfolding crosses
  crosses-Ends o =
      if-Ends _ _ _
        (if-Ends _ _ _
          (or_else-Ends (contains_point s o.a) (contains_point s o.b) (contains_point-Ends o.a)
            (contains_point-Ends o.b))
          (true, refl))
        (if-Ends _ _ _ (false, refl) (_, refl))

  pub intersects_segment-Ends : (o : Segment F) → Ends (intersects_segment s o)
  unfolding intersects_segment
  intersects_segment-Ends o =
      if-Ends (is_apart s.a.y s.b.y o.a.y o.b.y) _ _ (false, refl)
        (if-Ends (is_apart s.a.x s.b.x o.a.x o.b.x) _ _ (false, refl)
          (if-Ends
            (same_point s.a o.a || same_point s.a o.b || same_point s.b o.a || same_point s.b o.b) _
            _ (true, refl) (crosses-Ends o)))
