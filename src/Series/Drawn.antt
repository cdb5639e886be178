-- ===== src/Series/Drawn.antt =====
-- What holds of all points of a series holds of the ends of its segments.
use mathlib.Core.Path.{subst}
use geometry.Prelude.{ℕ, ◌+◌, ◌^◌, ◌<◌, ◌≡◌, true, List, inl, inr}
use geometry.Prelude.Tests.{◌==◌, if◌then◌else◌, Option-cases}
use geometry.Prelude.Lists.{length, get_elem?, All, All-get_elem?}
use geometry.Prelude.Run.{Run, ok}
use geometry.Float.{Float, less}
use geometry.Point.{Point, IsNumeric}
use geometry.Segment.{Segment, seg}
use geometry.Series.{BaseSeries, segment_at}

module _ {ℓ} {F : Type ℓ} ⦃fl : Float F⦄ where
  -- A segment of a series ends at points of the series.
  pub segment_at-All {κ} :
      (P : Point F → Type κ) (s : BaseSeries F) (i : ℕ) (g : Segment F)
      → All P s.points
      → segment_at s i ≡ ok g
      → P g.a × P g.b
  unfolding segment_at
  segment_at-All P s i g all at =
      let next = if i + 1 == length s.points then 0 else i + 1 in
      elim (Option-cases (get_elem? s.points i)) [
        | inl out ↦ let e : Run.panic ≡ ok g = rw out at at in cc
        | inr (a, ea) ↦ elim (Option-cases (get_elem? s.points next)) [
          | inl out ↦ let e : Run.panic ≡ ok g = rw (ea, out) at at in cc
          | inr (b, eb) ↦
              let e : ok (seg a b) ≡ ok g = rw (ea, eb) at at in
              let e' : seg a b ≡ g = cc in
              subst (λ h. P h.a × P h.b) e'
                (All-get_elem? P s.points i all ea, All-get_elem? P s.points next all eb)
        ]
      ]

  abbrev pub IsLow : Point F → Type 0
  IsLow p = less p.y fl.inf ≡ true

  -- Fewer than 2^63 points, without NaN and with Y below +Inf.
  pub record IsDrawn (points : List (Point F)) : Type ℓ where
    pub numeric : All IsNumeric points
    pub low : All IsLow points
    pub short : length points < 2 ^ 63
