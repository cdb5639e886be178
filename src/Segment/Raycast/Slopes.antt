-- ===== src/Segment/Raycast/Slopes.antt =====
-- The slopes that Raycast compares, on segments that are parallel to an axis.
use geometry.Prelude.{◌≡◌, true, false, arith}
use geometry.Float.{Float, ◌⊖◌, ◌⊘◌, same}
use geometry.Float.Laws.{IsOrdered, IsExtended, is_between, is_inf, same_trans}
use geometry.Point.{Point}

module _ {ℓ} {F : Type ℓ} ⦃fl : Float F⦄ where
  -- the quotients that the test of the slopes compares
  abbrev pub slope : F → F → F → F
  slope y c d = (y ⊖ c) ⊘ (d ⊖ c)

module _ {ℓ} {F : Type ℓ} ⦃fl : Float F⦄ (laws : IsOrdered F) (more : IsExtended F) where
  open laws use {same_comm, same_number}
  open more use {zero_by_zero, by_zero, by_greater}

  pub level_apart :
      (p a b : Point F)
      → same p.y a.y ≡ true
      → same a.y b.y ≡ true
      → same (slope p.x a.x b.x) (slope p.y a.y b.y) ≡ false
  level_apart p a b h k = ground (
    arith,
    same_comm (slope p.x a.x b.x) (slope p.y a.y b.y),
    same_number (slope p.y a.y b.y) (slope p.x a.x b.x),
    zero_by_zero p.y a.y b.y h k,
  )

  -- What is == to an infinity is infinite.
  inf_same : (q r : F) → same q r ≡ true → is_inf q ≡ true → is_inf r ≡ true
  inf_same q r h k =
      ground (arith, same_trans laws r q fl.inf, same_trans laws r q fl.neg_inf, same_comm q r h)

  pub upright_apart :
      (p a b : Point F)
      → same a.x b.x ≡ true
      → same a.y b.y ≡ false
      → is_between p.y a.y b.y ≡ true
      → same (slope p.x a.x b.x) (slope p.y a.y b.y) ≡ false
  upright_apart p a b h k between = ground (
    arith,
    same_number (slope p.x a.x b.x) (slope p.y a.y b.y),
    by_zero p.x a.x b.x h,
    inf_same (slope p.x a.x b.x) (slope p.y a.y b.y),
    by_greater p.y a.y b.y k between,
  )
