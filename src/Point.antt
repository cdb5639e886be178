-- ===== src/Point.antt =====
-- point.go: points, less what takes a rectangle, a line or a polygon.
use geometry.Prelude.{Bool, false, ◌&&◌}
use geometry.Float.{Float, ◌⊕◌, same, IsNumber}

pub record Point {ℓ} (F : Type ℓ) : Type ℓ where
  pub x : F
  pub y : F

module _ {ℓ} {F : Type ℓ} where
  abbrev pub pt : F → F → Point F
  pt x y = record { x = x; y = y }

module _ {ℓ} {F : Type ℓ} ⦃fl : Float F⦄ where
  -- Go's == on two points
  abbrev pub same_point : Point F → Point F → Bool
  same_point p q = same p.x q.x && same p.y q.y

  -- No coordinate is NaN.
  abbrev pub IsNumeric : Point F → Type 0
  IsNumeric p = IsNumber p.x × IsNumber p.y

  unfoldable pub move : Point F → F → F → Point F
  move p dx dy = pt (p.x ⊕ dx) (p.y ⊕ dy)

  unfoldable pub contains_point : Point F → Point F → Bool
  contains_point p q = same_point p q

  unfoldable pub intersects_point : Point F → Point F → Bool
  intersects_point p q = same_point p q

-- Point.Empty
unfoldable pub empty {ℓ} : {F : Type ℓ} → Point F → Bool
empty p = false
