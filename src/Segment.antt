-- ===== src/Segment.antt =====
-- segment.go and the rectangle type of rect.go.
pub mod Raycast
pub mod Intersect
pub mod Bounds
use geometry.Prelude.{Bool, ◌≡◌}
use geometry.Prelude.Tests.{if◌then◌else◌}
use geometry.Float.{Float, ◌⊕◌, ◌⊖◌, ◌⊗◌, const, less, same}
use geometry.Point.{Point, pt}

pub record Segment {ℓ} (F : Type ℓ) : Type ℓ where
  pub a : Point F
  pub b : Point F

pub record Rect {ℓ} (F : Type ℓ) : Type ℓ where
  pub min : Point F
  pub max : Point F

module _ {ℓ} {F : Type ℓ} where
  abbrev pub seg : Point F → Point F → Segment F
  seg a b = record { a = a; b = b }

  abbrev pub box : Point F → Point F → Rect F
  box min max = record { min = min; max = max }

module _ {ℓ} {F : Type ℓ} ⦃fl : Float F⦄ where
  unfoldable pub move : Segment F → F → F → Segment F
  move s dx dy = seg (pt (s.a.x ⊕ dx) (s.a.y ⊕ dy)) (pt (s.b.x ⊕ dx) (s.b.y ⊕ dy))

  -- if rect.Min.X > rect.Max.X { swap }, and the same for Y
  sort_x : Rect F → Rect F
  sort_x r =
      if less r.max.x r.min.x
      then box (record r.min { x = r.max.x }) (record r.max { x = r.min.x })
      else r

  sort_y : Rect F → Rect F
  sort_y r =
      if less r.max.y r.min.y
      then box (record r.min { y = r.max.y }) (record r.max { y = r.min.y })
      else r

  -- Segment.Rect
  unfoldable pub rect : Segment F → Rect F
  unfolding sort_x sort_y
  rect s = sort_y (sort_x (box s.a s.b))

  unfoldable pub collinear_point : Segment F → Point F → Bool
  collinear_point s p =
      let cmpx = p.x ⊖ s.a.x in
      let cmpy = p.y ⊖ s.a.y in
      let rx = s.b.x ⊖ s.a.x in let ry = s.b.y ⊖ s.a.y in same (cmpx ⊗ ry ⊖ cmpy ⊗ rx) (const 0)
