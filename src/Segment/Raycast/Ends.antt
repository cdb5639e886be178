-- ===== src/Segment/Raycast/Ends.antt =====
-- The loop of Raycast.
use geometry.Prelude.{ℕ, zero, suc, ◌≡◌, refl, Bool, true, false, ◌&&◌, inl, inr, some, arith}
use geometry.Prelude.Tests.{Bool-cases, Option-cases}
use geometry.Prelude.Run.{Returns}
use geometry.Float.{Float, ◌⊖◌, ◌⊘◌, less, same, IsNumber}
use geometry.Float.Laws.{IsOrdered, less_trans}
use geometry.Point.{Point}
use geometry.Segment.{Segment}
use geometry.Segment.Raycast.{
  RaycastResult, misses_span, axis_test, vertical_test, step_off, cast, raycast, neither, on_top,
}

-- The documented behaviour of math.Nextafter: it returns the next value towards +Inf.
pub record IsRising {ℓ} (F : Type ℓ) ⦃fl : Float F⦄ : Type ℓ where
  pub next_up_above : (y : F) → less y fl.inf ≡ true → less y (fl.next_up y) ≡ true

module _ {ℓ} {F : Type ℓ} ⦃fl : Float F⦄ where
  -- The order of the ends does not matter.
  pub step_off_comm : (n : ℕ) (y a b : F) → step_off n y a b ≡ step_off n y b a
  unfolding step_off
  step_off_comm zero y a b = refl
  step_off_comm (suc n) y a b = rw (step_off_comm n (fl.next_up y) a b) (ground arith)

module _ {ℓ} {F : Type ℓ} ⦃fl : Float F⦄ (laws : IsOrdered F) (rising : IsRising F) where
  open laws use {less_cotrans, less_number, same_comm, same_number, same_not_less}

  -- What lies above an end is not that end.
  above_off : (e z : F) → less e z ≡ true → same z e ≡ false
  above_off e z h = ground (arith, same_comm z e, same_not_less e z)

  next-above : (z e : F) → same z e ≡ true → less e fl.inf ≡ true → less z (fl.next_up z) ≡ true
  next-above z e h below =
      rising.next_up_above z
        (less_cotrans e z fl.inf (same_number z e h) below (same_not_less e z (same_comm z e h)))

  -- The next value after an end lies above it.
  next_end-above : (z e : F) → same z e ≡ true → less e fl.inf ≡ true → less e (fl.next_up z) ≡ true
  next_end-above z e h below =
      less_cotrans z e (fl.next_up z) (same_number e z (same_comm z e h)) (next-above z e h below)
        (same_not_less z e h)

  module _ (a b : F) (a_below : less a fl.inf ≡ true) (b_below : less b fl.inf ≡ true) where
    -- A number that is neither end.
    abbrev IsOff : F → Type 0
    IsOff z = (same z a ≡ false) × (same z b ≡ false) × IsNumber z

    -- Above both ends the loop stops.
    above_both : (z : F) → less a z ≡ true → less b z ≡ true → Returns IsOff (step_off 1 z a b)
    unfolding step_off
    above_both z ha hb =
        let off_a = above_off a z ha in
        let off_b = above_off b z hb in
        (z, rw (off_a, off_b) refl, (off_a, off_b, (less_number a z ha).1))

    -- Above one of them it takes a round more at most.
    above_a : (z : F) → less a z ≡ true → Returns IsOff (step_off 2 z a b)
    unfolding step_off
    above_a z ha =
        let off_a = above_off a z ha in
        elim (Bool-cases (same z b)) [
          | inl on ↦
              let up = next-above z b on b_below in
              rw (off_a, on)
                (above_both (fl.next_up z) (less_trans laws a z (fl.next_up z) ha up)
                  (next_end-above z b on b_below))
          | inr off ↦ (z, rw (off_a, off) refl, (off_a, off, (less_number a z ha).1))
        ]

    above_b : (z : F) → less b z ≡ true → Returns IsOff (step_off 2 z a b)
    unfolding step_off
    above_b z hb =
        let off_b = above_off b z hb in
        elim (Bool-cases (same z a)) [
          | inl on ↦
              let up = next-above z a on a_below in
              rw (off_b, on)
                (above_both (fl.next_up z) (next_end-above z a on a_below)
                  (less_trans laws b z (fl.next_up z) hb up))
          | inr off ↦ (z, rw (off_b, off) refl, (off, off_b, (less_number b z hb).1))
        ]

    -- Three rounds are enough to step off both ends.
    pub step_off-IsOff : (y : F) → Returns (λ z. IsNumber y → IsOff z) (step_off 3 y a b)
    unfolding step_off
    step_off-IsOff y = elim (Bool-cases (same y a)) [
      | inl on ↦
          let (z, run, found) = above_a (fl.next_up y) (next_end-above y a on a_below) in
          (z, rw on run, λ number. found)
      | inr off ↦ elim (Bool-cases (same y b)) [
        | inl on' ↦
            let (z, run, found) = above_b (fl.next_up y) (next_end-above y b on' b_below) in
            (z, rw (off, on') run, λ number. found)
        | inr off' ↦ (y, rw (off, off') refl, λ number. (off, off', number))
      ]
    ]

  -- Not both at once.
  abbrev pub IsOne : RaycastResult → Type 0
  IsOne r = (r.in_side && r.on) ≡ false

  axis_test-IsOne : (p a b : Point F) (r : RaycastResult) → axis_test p a b ≡ some r → IsOne r
  unfolding axis_test vertical_test
  axis_test-IsOne p a b r e = ground arith

  cast-IsOne : (p a b : Point F) → IsOne (cast p a b)
  unfolding cast
  cast-IsOne p a b = ground arith

  -- the test of the slopes
  abbrev on_line : Segment F → Point F → Bool
  on_line s p = same ((p.x ⊖ s.a.x) ⊘ (s.b.x ⊖ s.a.x)) ((p.y ⊖ s.a.y) ⊘ (s.b.y ⊖ s.a.y))

  -- Where both ends of a segment are below +Inf, Raycast returns, its loop within three rounds, and
  -- it never reports a point both on the segment and as crossed, if
  -- Nextafter rises below +Inf.
  pub raycast_ends :
      (s : Segment F) (p : Point F)
      → less s.a.y fl.inf ≡ true
      → less s.b.y fl.inf ≡ true
      → Returns (λ r. (r.in_side && r.on) ≡ false) (raycast s p)
  unfolding raycast
  raycast_ends s p a_below b_below = elim (Bool-cases (misses_span p s.a s.b)) [
    | inl missed ↦ (neither, rw missed refl, refl)
    | inr met ↦ elim (Option-cases (axis_test p s.a s.b)) [
      | inr (r, decided) ↦ (r, rw (met, decided) refl, axis_test-IsOne p s.a s.b r decided)
      | inl open_case ↦
          let (y, run, _) = step_off-IsOff s.a.y s.b.y a_below b_below p.y in
          elim (Bool-cases (on_line s p)) [
            | inl on ↦ (on_top, rw (met, open_case, on) refl, refl)
            | inr off ↦ (
              cast (record p { y = y }) s.a s.b,
              rw (met, open_case, off, run) refl,
              cast-IsOne (record p { y = y }) s.a s.b,
            )
          ]
    ]
  ]
