-- ===== src/Segment/Raycast.antt =====
-- raycast.go: the ray-casting test of a point against one segment.
pub mod Ends
pub mod Span
pub mod Slopes
pub mod Axis
use geometry.Prelude.{ℕ, zero, suc, Bool, true, false, ◌&&◌, ◌||◌, Option, none, some}
use geometry.Prelude.Tests.{if◌then◌else◌}
use geometry.Prelude.Run.{Run, ok, out_of_fuel, ◌>>=◌}
use geometry.Float.{Float, ◌⊖◌, ◌⊘◌, less, same, at_most}
use geometry.Float.Laws.{is_between}
use geometry.Point.{Point, same_point}
use geometry.Segment.{Segment}

pub record RaycastResult : Type 0 where
  pub in_side : Bool
  pub on : Bool

abbrev pub neither : RaycastResult
neither = record { in_side = false; on = false }

abbrev pub inside : RaycastResult
inside = record { in_side = true; on = false }

abbrev pub on_top : RaycastResult
on_top = record { in_side = false; on = true }

module _ {ℓ} {F : Type ℓ} ⦃fl : Float F⦄ where
  -- the first test: the point is above or below the segment
  unfoldable pub misses_span : Point F → Point F → Point F → Bool
  misses_span p a b =
      if less a.y b.y && (less p.y a.y || less b.y p.y)
      then true
      else less b.y a.y && (less p.y b.y || less a.y p.y)

  -- the tests for a vertical segment, and before them those for a horizontal one or a point;
  -- `none` falls through
  unfoldable pub vertical_test : Point F → Point F → Point F → Option RaycastResult
  vertical_test p a b =
      if same a.x b.x && same p.x b.x && is_between p.y a.y b.y then some on_top else none

  unfoldable pub axis_test : Point F → Point F → Point F → Option RaycastResult
  unfolding vertical_test
  axis_test p a b =
      if same a.y b.y
      then (if same a.x b.x
          then some (if same_point p a then on_top else neither)
          else if same p.y b.y && is_between p.x a.x b.x
          then some on_top
          else vertical_test p a b)
      else vertical_test p a b

  -- for p.Y == a.Y || p.Y == b.Y { p.Y = math.Nextafter(p.Y, math.Inf(1)) }
  unfoldable pub step_off : ℕ → F → F → F → Run F
  step_off zero y ay by = out_of_fuel
  step_off (suc fuel) y ay by =
      let rest = step_off fuel (fl.next_up y) ay by in if same y ay || same y by then rest else ok y

  -- the raycast proper, from `if a.Y < b.Y` on
  unfoldable pub cast : Point F → Point F → Point F → RaycastResult
  cast p a b =
      if (if less a.y b.y then less p.y a.y || less b.y p.y else less p.y b.y || less a.y p.y)
      then neither
      else if (if less b.x a.x then at_most a.x p.x else at_most b.x p.x)
      then neither
      else if (if less b.x a.x then at_most p.x b.x else at_most p.x a.x)
      then inside
      else if less a.y b.y
      then (if at_most ((b.y ⊖ a.y) ⊘ (b.x ⊖ a.x)) ((p.y ⊖ a.y) ⊘ (p.x ⊖ a.x))
          then inside
          else neither)
      else if at_most ((a.y ⊖ b.y) ⊘ (a.x ⊖ b.x)) ((p.y ⊖ b.y) ⊘ (p.x ⊖ b.x))
      then inside
      else neither

  -- Segment.Raycast, its loop with three rounds.
  unfoldable pub raycast : Segment F → Point F → Run RaycastResult
  unfolding misses_span axis_test step_off cast
  raycast s p =
      let a = s.a in
      let b = s.b in
      if misses_span p a b then ok neither else elim (axis_test p a b) [
        | some r ↦ ok r
        | none ↦
            if same ((p.x ⊖ a.x) ⊘ (b.x ⊖ a.x)) ((p.y ⊖ a.y) ⊘ (b.y ⊖ a.y))
            then ok on_top
            else do y ← step_off 3 p.y a.y b.y; ok (cast (record p { y = y }) a b)
      ]
