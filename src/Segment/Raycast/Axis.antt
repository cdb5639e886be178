-- ===== src/Segment/Raycast/Axis.antt =====
-- Raycast on segments that are parallel to an axis.
use geometry.Prelude.{◌≡◌, refl, ap, ◌∙◌, true, false, ◌&&◌, inl, inr, none, some, arith}
use geometry.Prelude.Tests.{Bool-cases, if◌then◌else◌}
use geometry.Prelude.Run.{ok}
use geometry.Float.{Float, less, same, IsNumber}
use geometry.Float.Laws.{IsOrdered, IsExtended, is_between, same_trans, at_most_lem}
use geometry.Float.Between.{flat_between, at-IsNumber}
use geometry.Segment.Raycast.Slopes.{slope, level_apart, upright_apart}
use geometry.Segment.Raycast.Span.{off_level, outside-not, between_met}
use geometry.Point.{Point, same_point}
use geometry.Segment.{seg}
use geometry.Segment.Raycast.{
  RaycastResult, misses_span, axis_test, vertical_test, step_off, cast, raycast, neither, inside,
  on_top,
}

module _ {ℓ} {F : Type ℓ} ⦃fl : Float F⦄ (laws : IsOrdered F) (more : IsExtended F) where
  open laws use {less_cotrans, same_comm, same_number, same_not_less}

  -- On a point.
  point_raycast :
      (p a b : Point F)
      → same a.x b.x ≡ true
      → same a.y b.y ≡ true
      → raycast (seg a b) p ≡ ok (if same_point p a then on_top else neither)
  unfolding raycast misses_span axis_test
  point_raycast p a b h k =
      rw (h, k, same_not_less a.y b.y k, same_not_less b.y a.y (same_comm a.y b.y k)) refl

  module _ (p a b : Point F) (met : misses_span p a b ≡ false) where
    decided : (r : RaycastResult) → axis_test p a b ≡ some r → raycast (seg a b) p ≡ ok r
    unfolding raycast
    decided r e = rw (met, e) refl

    undecided :
        (z : F)
        → axis_test p a b ≡ none
        → same (slope p.x a.x b.x) (slope p.y a.y b.y) ≡ false
        → step_off 3 p.y a.y b.y ≡ ok z
        → raycast (seg a b) p ≡ ok (cast (record p { y = z }) a b)
    unfolding raycast
    undecided z e apart stepped = rw (met, e, apart, stepped) refl

  module _ (p a b : Point F) (z : F) (stepped : step_off 3 p.y a.y b.y ≡ ok z)
      (number : IsNumber z) where
    -- On a segment from left to right, at its height.
    wide_raycast :
        same p.y a.y ≡ true
        → same a.y b.y ≡ true
        → same a.x b.x ≡ false
        → same z a.y ≡ false
        → raycast (seg a b) p ≡ ok (if is_between p.x a.x b.x then on_top else neither)
    unfolding misses_span axis_test vertical_test cast
    wide_raycast at flat wide off =
        let met : misses_span p a b ≡ false =
          ground
            (arith, same_not_less a.y b.y flat, same_not_less b.y a.y (same_comm a.y b.y flat)) in
        let at' = same_trans laws p.y a.y b.y at flat in
        elim (Bool-cases (is_between p.x a.x b.x)) [
          | inl on ↦ rw on (decided p a b met on_top (rw (flat, wide, at', on) refl))
          | inr beside ↦
              let missed : cast (record p { y = z }) a b ≡ neither =
                rw (off_level laws z a b flat off number) refl in
              rw (beside, ← missed)
                (undecided p a b met z (rw (flat, wide, at', beside) refl)
                  (level_apart laws more p a b at flat) stepped)
        ]

    -- On a segment up or down, beside it.
    tall_raycast :
        IsNumber p.x
        → is_between p.y a.y b.y ≡ true
        → same a.x b.x ≡ true
        → same a.y b.y ≡ false
        → IsNumber a.y × IsNumber b.y
        → raycast (seg a b) p
          ≡ ok (
              if same p.x b.x
              then on_top
              else if less p.x b.x && is_between z a.y b.y
              then inside
              else neither)
    unfolding misses_span axis_test vertical_test cast
    tall_raycast wide beside h tall ends =
        let met : misses_span p a b ≡ false = between_met laws p a b beside in
        elim (Bool-cases (same p.x b.x)) [
          | inl on ↦ rw on (decided p a b met on_top (rw (tall, h, on, beside) refl))
          | inr off ↦
              let crossed : cast (record p { y = z }) a b
                  ≡ (if less p.x b.x && is_between z a.y b.y then inside else neither) =
                rw
                  (
                    same_not_less b.x a.x (same_comm a.x b.x h),
                    outside-not laws z a b number ends.0 ends.1,
                    at_most_lem laws b.x p.x (same_number b.x a.x (same_comm a.x b.x h)) wide,
                  )
                  (ground (
                    arith,
                    less_cotrans p.x a.x b.x (same_number a.x b.x h),
                    same_not_less a.x b.x h,
                  )) in
              rw (off, ← crossed)
                (undecided p a b met z (rw (tall, h, off) refl)
                  (upright_apart laws more p a b h tall beside) stepped)
        ]

    -- A segment from left to right is seen at its height alone, and then the point is on it or not.
    pub level_raycast :
        IsNumber p.x
        → same p.y a.y ≡ true
        → same a.y b.y ≡ true
        → same z a.y ≡ false
        → raycast (seg a b) p ≡ ok (if is_between p.x a.x b.x then on_top else neither)
    level_raycast numeric at flat off = elim (Bool-cases (same a.x b.x)) [
      | inr wide ↦ wide_raycast at flat wide off
      | inl narrow ↦
          let e : same_point p a ≡ is_between p.x a.x b.x =
            rw (at, flat_between laws p.x a.x b.x numeric narrow) (ground arith) in
          rw (← e) (point_raycast p a b narrow flat)
    ]

    -- A point beside a segment up or down is on it, or it is crossed if the ray is level with it.
    pub upright_raycast :
        IsNumber p.x
        → is_between p.y a.y b.y ≡ true
        → same a.x b.x ≡ true
        → IsNumber a.y × IsNumber b.y
        → same z a.y ≡ false
        → raycast (seg a b) p
          ≡ ok (
              if same p.x b.x
              then on_top
              else if less p.x b.x && is_between z a.y b.y
              then inside
              else neither)
    upright_raycast numeric beside h ends off = elim (Bool-cases (same a.y b.y)) [
      | inr tall ↦ tall_raycast numeric beside h tall ends
      | inl flat ↦
          let missed : is_between z a.y b.y ≡ false = ground (
            arith,
            off_level laws z a b flat off number,
            outside-not laws z a b number ends.0 ends.1,
          ) in
          let level : same p.y a.y ≡ true = ground (
            arith,
            flat_between laws p.y a.y b.y,
            same_comm p.y a.y,
            at-IsNumber laws p.y a.y b.y beside,
          ) in
          let same_ends : same p.x a.x ≡ same p.x b.x = ground (
            arith,
            same_trans laws p.x a.x b.x,
            same_trans laws p.x b.x a.x,
            same_comm a.x b.x h,
          ) in
          let e : same_point p a ≡ same p.x b.x = rw (level, same_ends) (ground arith) in
          rw (missed, ← e) (point_raycast p a b h flat ∙ ap ok (ground arith))
    ]
