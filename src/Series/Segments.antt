-- ===== src/Series/Segments.antt =====
-- The segments of a series: how many there are, and where they lie.
use geometry.Prelude.{
  ℕ, ◌+◌, ◌-◌, ◌≤◌, ◌<◌, ◌≡◌, Bool, true, false, ◌&&◌, ◌||◌, some, List, inl, inr, arith,
}
use geometry.Prelude.Tests.{ltb, ◌==◌, if◌then◌else◌, Bool-cases}
use geometry.Prelude.Lists.{length, get_elem?, get_elem?-some, All, All-get_elem?}
use geometry.Prelude.Run.{ok, Returns}
use geometry.Float.{Float}
use geometry.Point.{Point, same_point, IsNumeric}
use geometry.Segment.{seg, rect}
use geometry.Segment.Bounds.{rect-IsNumericRect, Encloses-rect}
use geometry.Rect.{contains_rect}
use geometry.Rect.Order.{IsNumericRect}
use geometry.Series.{BaseSeries, num_segments, segment_at, ends_meet}
use geometry.Series.Process.Bounds.{Encloses}

module _ {ℓ} {F : Type ℓ} ⦃fl : Float F⦄ where
  -- the guard of processPoints and of Empty
  abbrev pub is_short : BaseSeries F → Bool
  is_short s = s.closed && ltb (length s.points) 3 || ltb (length s.points) 2

  -- No coordinate is NaN, and the rectangle of the series encloses its points.
  pub record IsBounded (s : BaseSeries F) : Type ℓ where
    pub numeric : All IsNumeric s.points
    pub encloses :
        is_short s ≡ false
        → (j : ℕ) (p : Point F) → get_elem? s.points j ≡ some p
        → Encloses s.rect p

  ends_meet-ok :
      (points : List (Point F)) → 2 ≤ length points → (meet : Bool) × (ends_meet points ≡ ok meet)
  unfolding ends_meet
  ends_meet-ok points h =
      let (last, el) = get_elem?-some points (length points - 1) (omega arith) in
      let (first, ef) = get_elem?-some points 0 (omega arith) in
      (same_point last first, rw (el, ef))

  -- NumSegments never panics: a short series has no segments, and no series has more than points.
  pub num_segments_bounds :
      (s : BaseSeries F)
      → Returns (λ n. (n ≤ length s.points) × (0 < n → is_short s ≡ false)) (num_segments s)
  unfolding num_segments
  num_segments_bounds s = elim (Bool-cases (is_short s)) [
    | inl short ↦ (0, ground arith, (omega arith, λ h. absurd (omega arith)))
    | inr long ↦
        let two : 2 ≤ length s.points = ground arith in
        let (meet, run) = ends_meet-ok s.points two in
        elim (Bool-cases s.closed) [
          | inl c ↦ (
            if meet then length s.points - 1 else length s.points,
            ground (arith, run),
            (ground arith, λ _. long),
          )
          | inr o ↦ (length s.points - 1, ground arith, (omega arith, λ _. long))
        ]
  ]

  module _ (s : BaseSeries F) {n : ℕ} (counted : num_segments s ≡ ok n) (i : ℕ)
      (inside : i < n) where
    -- Every segment below NumSegments exists, and its ends are points of the series.
    pub segment_at_lem :
        Returns
          (λ g.
            (j : ℕ) × (get_elem? s.points j ≡ some g.a)
            × ((k : ℕ) × (get_elem? s.points k ≡ some g.b)))
          (segment_at s i)
    unfolding segment_at
    segment_at_lem =
        let (m, run, (le, _)) = num_segments_bounds s in
        let below : i < length s.points = ground arith in
        let next = if i + 1 == length s.points then 0 else i + 1 in
        let (a, ea) = get_elem?-some s.points i below in
        let (b, eb) = get_elem?-some s.points next (ground arith) in
        (seg a b, rw (ea, eb), (i, ea, (next, eb)))

    pub segment_at-contains_rect :
        IsBounded s
        → Returns
            (λ g. IsNumericRect (rect g) × (contains_rect s.rect (rect g) ≡ true))
            (segment_at s i)
    segment_at-contains_rect v =
        let (g, run, (j, ea, (k, eb))) = segment_at_lem in
        let (m, count, (_, long)) = num_segments_bounds s in
        let filled = long (ground arith) in
        (
          g,
          run,
          (
            rect-IsNumericRect g.a g.b (All-get_elem? IsNumeric s.points j v.numeric ea)
                (All-get_elem? IsNumeric s.points k v.numeric eb),
            Encloses-rect s.rect g.a g.b (v.encloses filled j g.a ea) (v.encloses filled k g.b eb),
          ),
        )

  -- Two series of the same points, both open or both closed, have the same segments, and as many.
  pub same_segments :
      (s t : BaseSeries F)
      → t.points ≡ s.points
      → t.closed ≡ s.closed
      → (num_segments t ≡ num_segments s) × ((i : ℕ) → segment_at t i ≡ segment_at s i)
  unfolding num_segments segment_at
  same_segments s t same_points same_closed = (rw (same_points, same_closed), λ i. rw same_points)
