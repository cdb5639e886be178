-- ===== src/Ring/Box/Within.antt =====
-- Whether a rectangle, as a ring, contains another ring.
use geometry.Prelude.{ℕ, zero, suc, ◌+◌, ◌<◌, ◌≡◌, refl, Bool, true, false, inl, inr, arith}
use geometry.Prelude.Tests.{leb, Bool-cases}
use geometry.Prelude.Run.{Run, ok}
use geometry.Float.{Float, less}
use geometry.Float.Laws.{IsOrdered, IsExtended, less_irrefl}
use geometry.Point.{Point, IsNumeric}
use geometry.Segment.{Rect}
use geometry.Segment.Raycast.Ends.{IsRising}
use geometry.Rect
use geometry.Rect.{contains_point, contains_rect}
use geometry.Rect.Order.{IsNumericRect}
use geometry.Series.Process.Bounds.{Within, Encloses, IsUpright}
use geometry.Line.Inside.{Encloses-contains_point}
use geometry.Ring.{
  Ring, of_rect, all_from, bounds, is_empty, count_points, nth_point, complex_ring_min_points,
}
use geometry.Ring.Rings.{contains_parts, contains_ring_within, ring_contains_ring}
use geometry.Ring.Box.{is_upright, ring_contains_point-rect}

all_from_lem :
    (test : ℕ → Run Bool) (n i : ℕ)
    → ((j : ℕ) → j < i + n → test j ≡ ok true)
    → all_from n i test ≡ ok true
unfolding all_from
all_from_lem test zero i h = refl
all_from_lem test (suc n) i h =
    rw (h i (omega arith)) (all_from_lem test n (i + 1) (λ j k. h j (omega arith)))

module _ {ℓ} {F : Type ℓ} ⦃fl : Float F⦄ where
  -- The point exists, is no NaN, and lies within the rectangle of the ring.
  abbrev pub IsInBounds : Ring F → ℕ → Type ℓ
  IsInBounds ring i =
      (p : Point F) × (nth_point ring i ≡ ok p) × IsNumeric p × Encloses (bounds ring) p

  -- All points of a ring lie within its rectangle, which is no NaN and not the wrong way round.
  pub record IsBoxed (ring : Ring F) : Type ℓ where
    pub in_bounds : (i : ℕ) → i < count_points ring → IsInBounds ring i
    pub numbers : IsNumericRect (bounds ring)
    pub upright : IsUpright (bounds ring)

module _ {ℓ} {F : Type ℓ} ⦃fl : Float F⦄ (laws : IsOrdered F) where
  corner-IsInBounds :
      (o : Rect F) → IsNumericRect o → IsUpright o → (i : ℕ) → i < 5 → IsInBounds (of_rect o) i
  unfolding Rect.point_at
  corner-IsInBounds o ((a, b), (c, d)) (x, y) i h =
      let none = less_irrefl laws in
      let left : Within o.min.x o.max.x o.min.x = (none o.min.x, x) in
      let right : Within o.min.x o.max.x o.max.x = (x, none o.max.x) in
      let below : Within o.min.y o.max.y o.min.y = (none o.min.y, y) in
      let above : Within o.min.y o.max.y o.max.y = (y, none o.max.y) in
      elim i as (λ j. j < 5 → IsInBounds (of_rect o) j) [
        | zero ↦ λ k. (_, refl, (a, b), (left, below))
        | suc zero ↦ λ k. (_, refl, (c, b), (right, below))
        | suc (suc zero) ↦ λ k. (_, refl, (c, d), (right, above))
        | suc (suc (suc zero)) ↦ λ k. (_, refl, (a, d), (left, above))
        | suc (suc (suc (suc zero))) ↦ λ k. (_, refl, (a, b), (left, below))
        | suc (suc (suc (suc (suc j)))) ↦ λ k. absurd (omega arith)
      ]
        h

  pub rect-IsBoxed : (o : Rect F) → IsNumericRect o → IsUpright o → IsBoxed (of_rect o)
  unfolding Rect.num_points
  rect-IsBoxed o numbers upright = record {
    in_bounds = corner-IsInBounds o numbers upright;
    numbers = numbers;
    upright = upright;
  }

module _ {ℓ} {F : Type ℓ} ⦃fl : Float F⦄ (laws : IsOrdered F) (more : IsExtended F)
    (rising : IsRising F) (r : Rect F) (numbers : IsNumericRect r) (upright : is_upright r ≡ true)
    (low : less r.max.y fl.inf ≡ true) where
  parts_inside :
      (other : Ring F)
      → IsBoxed other
      → contains_rect r (bounds other) ≡ true
      → contains_parts (of_rect r) other true ≡ ok true
  unfolding contains_parts Rect.convex
  parts_inside other boxed inside = all_from_lem _ (count_points other) 0 (λ j h.
      let (p, at, numeric, enclosed) = boxed.in_bounds j (omega arith) in
      let (t, run, answer) =
        ring_contains_point-rect laws more rising r p numbers numeric upright low true in
      let hit =
        Encloses-contains_point laws r (bounds other) p numbers boxed.numbers numeric inside
          enclosed in
      rw (at, run, answer, hit) refl)

  small_inside :
      (fuel : ℕ) (other : Ring F)
      → IsBoxed other
      → is_empty other ≡ false
      → leb complex_ring_min_points (count_points other) ≡ false
      → contains_ring_within (suc fuel) (of_rect r) other true ≡ ok (contains_rect r (bounds other))
  unfolding contains_ring_within Rect.empty
  small_inside fuel other boxed filled few = elim (Bool-cases (contains_rect r (bounds other))) [
    | inl inside ↦ rw (filled, few, inside) (parts_inside other boxed inside)
    | inr out ↦ rw (filled, few, out) refl
  ]

  -- A ring of many points has its rectangle tested first.
  boxed_inside :
      (fuel : ℕ) (other : Ring F)
      → IsBoxed other
      → is_empty other ≡ false
      → contains_ring_within fuel (of_rect r) (of_rect (bounds other)) true
        ≡ ok (contains_rect r (bounds other))
      → leb complex_ring_min_points (count_points other) ≡ true
      → contains_ring_within (suc fuel) (of_rect r) other true ≡ ok (contains_rect r (bounds other))
  unfolding contains_ring_within Rect.empty
  boxed_inside fuel other boxed filled first many =
      elim (Bool-cases (contains_rect r (bounds other))) [
        | inl inside ↦ rw (filled, many, first, inside) refl
        | inr out ↦ rw (filled, many, first, out) refl
      ]

  -- ringContainsRing of a rectangle compares the rectangles.
  pub ring_contains_ring-rect :
      (other : Ring F)
      → IsBoxed other
      → is_empty other ≡ false
      → ring_contains_ring (of_rect r) other true ≡ ok (contains_rect r (bounds other))
  unfolding ring_contains_ring Rect.num_points Rect.empty
  ring_contains_ring-rect other boxed filled =
      elim (Bool-cases (leb complex_ring_min_points (count_points other))) [
        | inr few ↦ small_inside 1 other boxed filled few
        | inl many ↦
            let box = rect-IsBoxed laws (bounds other) boxed.numbers boxed.upright in
            boxed_inside 1 other boxed filled
              (small_inside 0 (of_rect (bounds other)) box refl refl) many
      ]
