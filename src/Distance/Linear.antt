-- ===== src/Distance/Linear.antt =====
-- The distance to a series by the loop over its segments.
use native.Mathlib.Decide.{dec_lt}
use geometry.Prelude.{
  ℕ, zero, suc, ◌+◌, ◌<◌, ◌≡◌, refl, ap, ◌⊎◌, inl, inr, true, false, ◌||◌, some, arith,
}
use geometry.Prelude.Tests.{◌==◌, if◌then◌else◌, Bool-cases}
use geometry.Prelude.Run.{ok, Returns}
use geometry.Float.{Float, less, IsNumber}
use geometry.Float.Laws.{IsOrdered, less_irrefl}
use geometry.Segment.{Segment, seg}
use geometry.Series.Process.{zero_point}
use geometry.Ring.{Ring, count_segments, nth_segment}
use geometry.Distance.{nearest_from, linear_distance}

module _ {ℓ} {F : Type ℓ} ⦃fl : Float F⦄ (laws : IsOrdered F) (series : Ring F)
    (to_segment : Segment F → F) (n : ℕ) where
  open laws use {less_asymm, less_cotrans, less_number}

  module _ (known : (i : ℕ) → i < n → Returns (λ g. IsNumber (to_segment g)) (nth_segment series i))
      (x : ℕ) (g : Segment F) (inside : x < n) (at : nth_segment series x ≡ ok g) where
    -- The pair is a segment of the series with its distance, and the segment g is not nearer if it
    -- is one of the first i.
    abbrev pub Held : ℕ → Segment F × F → Type ℓ
    Held i (near, dist) =
        (k : ℕ) × (k < n)
        × (nth_segment series k ≡ ok near)
        × (dist ≡ to_segment near)
        × (x < i → less (to_segment g) dist ≡ false)

    same_at : (h : Segment F) (i : ℕ) → nth_segment series i ≡ ok h → x ≡ i → h ≡ g
    same_at h i here e = cc

    at_most_trans : (a b c : F) → less c b ≡ true → less a b ≡ false → less a c ≡ false
    at_most_trans a b c lt le =
        let number : IsNumber b = (less_number c b lt).1 in
        ground (arith, less_cotrans a b c number, less_asymm c b)

    -- One round keeps the nearer of the two.
    round-Held :
        (i : ℕ) (h : Segment F) (best : Segment F × F)
        → i < n
        → nth_segment series i ≡ ok h
        → (i ≡ 0) ⊎ Held i best
        → Held (i + 1) (if i == 0 || less (to_segment h) best.1 then (h, to_segment h) else best)
    round-Held i h (near, dist) low here (inl first) =
        let same_here : x < i + 1 → h ≡ g = λ p. same_at h i here (omega (arith, first)) in
        rw (ap (λ j. j == 0) first)
          (i, low, here, refl, λ p. rw (← same_here p) (less_irrefl laws (to_segment h)))
    round-Held i h (near, dist) low here (inr (k, low', there, far, least)) =
        elim (Bool-cases (i == 0 || less (to_segment h) dist)) [
          | inl new ↦ rw new (
            i,
            low,
            here,
            refl,
            λ p. elim (dec_lt x i) [
              | no e ↦ rw (← same_at h i here (omega arith)) (less_irrefl laws (to_segment h))
              | yes d ↦
                  let earlier = least (omega arith) in
                  at_most_trans (to_segment g) dist (to_segment h) (ground arith) earlier
            ],
          )
          | inr old ↦ rw old (
            k,
            low',
            there,
            far,
            λ p. elim (dec_lt x i) [
              | no e ↦ rw (← same_at h i here (omega arith)) (ground arith)
              | yes d ↦ least (omega arith)
            ],
          )
        ]

    nearest_from-Held :
        (m i : ℕ) (best : Segment F × F)
        → i + m ≡ n
        → (i ≡ 0) ⊎ Held i best
        → Returns (Held n) (nearest_from series to_segment m i best)
    unfolding nearest_from
    nearest_from-Held zero i best e (inl first) = absurd (omega (arith, inside, e, first))
    nearest_from-Held zero i best e (inr (k, low, there, far, least)) =
        (best, refl, (k, low, there, far, λ p. least (omega arith)))
    nearest_from-Held (suc m) i best e before =
        let (h, here, number) = known i (omega (arith, e)) in
        rw here (
          nearest_from-Held m (i + 1)
            (if i == 0 || less (to_segment h) best.1 then (h, to_segment h) else best) (omega arith)
            (inr (round-Held i h best (omega (arith, e)) here before)))

    -- The loop returns a nearest segment.
    pub linear_distance-Held :
        count_segments series ≡ ok n
        → Returns (λ r. Held n (r.nearest, r.dist)) (linear_distance series to_segment)
    unfolding linear_distance
    linear_distance-Held counted =
        let ((near, dist), run, held) =
          nearest_from-Held n 0 (seg zero_point zero_point, fl.nan) (omega arith) (inl refl) in
        (record { nearest = near; idx = some 0; dist = dist }, rw (counted, run), held)

  -- Of no segment the distance is NaN.
  pub linear_distance_empty :
      count_segments series ≡ ok 0
      → Returns (λ r. r.dist ≡ fl.nan) (linear_distance series to_segment)
  unfolding linear_distance nearest_from
  linear_distance_empty counted = (
    record { nearest = seg zero_point zero_point; idx = some 0; dist = fl.nan },
    rw counted,
    refl,
  )
