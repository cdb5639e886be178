-- ===== src/Line/Loop.antt =====
-- The loop of ContainsLine, where two neighbouring segments send it to each other.
use geometry.Prelude.{ℕ, zero, suc, ◌+◌, ◌-◌, ◌<◌, ◌≡◌, refl, true, false, arith}
use geometry.Prelude.Tests.{◌==◌}
use geometry.Prelude.Run.{ok, out_of_fuel}
use geometry.Float.{Float}
use geometry.Point.{same_point}
use geometry.Segment.{Segment}
use geometry.Segment.Intersect.{contains_segment}
use geometry.Series.{BaseSeries, segment_at}
use geometry.Line.{follow}

module _ {ℓ} {F : Type ℓ} ⦃fl : Float F⦄ (line other : BaseSeries F) (count k i left : ℕ)
    (mine next theirs : Segment F) where
  -- Where the segment of the other line starts at the common end of the segments k and k + 1 of the
  -- line, not where the segment k starts, and neither of the two contains it, the loop never ends,
  -- from either of them: no fuel is enough.
  pub follow-out_of_fuel :
      (fuel : ℕ)
      → segment_at line k ≡ ok mine
      → segment_at line (k + 1) ≡ ok next
      → segment_at other i ≡ ok theirs
      → contains_segment mine theirs ≡ ok false
      → contains_segment next theirs ≡ ok false
      → same_point theirs.a mine.a ≡ false
      → same_point theirs.a mine.b ≡ true
      → same_point theirs.a next.a ≡ true
      → k + 1 < count
      → (follow fuel line other count k i (suc left) ≡ out_of_fuel)
        × (follow fuel line other count (k + 1) i (suc left) ≡ out_of_fuel)
  unfolding follow
  follow-out_of_fuel zero ek en et hm hn away joined start inside = (refl, refl)
  follow-out_of_fuel (suc fuel) ek en et hm hn away joined start inside =
      let (here, there) = follow-out_of_fuel fuel ek en et hm hn away joined start inside in
      let not_last : (k == count - 1) ≡ false = ground arith in
      let not_first : (k + 1 == 0) ≡ false = ground arith in
      let back : k + 1 - 1 ≡ k = omega arith in
      (rw (ek, et, hm, away, joined, not_last) there, rw (en, et, hn, start, not_first, back) here)
