-- ===== src/Index/Made.antt =====
-- What makeSeries returns does not depend on its options, but for the index.
use geometry.Prelude.{◌≡◌, refl, ap, sym, ◌∙◌, inl, inr, Bool, Option, List, not, ◌&&◌, none}
use geometry.Prelude.Tests.{leb, ◌==◌, Bool-cases}
use geometry.Prelude.Lists.{length, All}
use geometry.Prelude.Run.{ok}
use geometry.Float.{Float}
use geometry.Float.Laws.{IsOrdered}
use geometry.Point.{Point, IsNumeric}
use geometry.Series.{BaseSeries, IndexOptions}
use geometry.Series.Process.Bounds.{process_points-Encloses}
use geometry.Series.Segments.{IsBounded}
use geometry.Index.{make_series, options}
use geometry.Index.Build.{build_index-IsIndexed}

module _ {ℓ} {F : Type ℓ} ⦃fl : Float F⦄ (laws : IsOrdered F) (points : List (Point F))
    (closed : Bool) (numeric : All IsNumeric points) where
  -- Its rectangle and its convexity are those of processPoints.
  pub made-parts :
      (opts : Option IndexOptions) (series : BaseSeries F)
      → make_series points closed opts ≡ ok series
      → (series.rect ≡ (process_points-Encloses laws points closed).0.rect)
        × (series.convex ≡ (process_points-Encloses laws points closed).0.convex)
  unfolding make_series
  made-parts opts series made =
      let (p, processed, encloses) = process_points-Encloses laws points closed in
      let bare : BaseSeries F = record {
        closed = closed;
        clockwise = p.clockwise;
        convex = p.convex;
        index_kind = 0;
        index = none;
        rect = p.rect;
        points = points;
      } in
      let o = options opts in
      let kinded : BaseSeries F = record bare { index_kind = o.kind } in
      let bounded : IsBounded kinded = record { numeric = numeric; encloses = encloses } in
      elim (Bool-cases (not (o.min_points == 0) && leb o.min_points (length points))) [
        | inl indexed ↦
            let (s, run, (root, built, same)) = build_index-IsIndexed laws kinded bounded refl in
            let e : make_series points closed opts ≡ ok s = rw (processed, indexed) run in
            let e' : series ≡ s = cc in
            (
              ap (λ (b : BaseSeries F). b.rect) e' ∙ ap (λ (b : BaseSeries F). b.rect) same,
              ap (λ (b : BaseSeries F). b.convex) e' ∙ ap (λ (b : BaseSeries F). b.convex) same,
            )
        | inr plain ↦
            let e : make_series points closed opts ≡ ok bare = rw (processed, plain) refl in
            let e' : series ≡ bare = cc in
            (ap (λ (b : BaseSeries F). b.rect) e', ap (λ (b : BaseSeries F). b.convex) e')
      ]

  pub same_made_parts :
      (opts : Option IndexOptions) (series : BaseSeries F)
      → make_series points closed opts ≡ ok series
      → (opts' : Option IndexOptions) (other : BaseSeries F)
      → make_series points closed opts' ≡ ok other
      → (other.rect ≡ series.rect) × (other.convex ≡ series.convex)
  same_made_parts opts series made opts' other made' =
      let (r, c) = made-parts opts series made in
      let (r', c') = made-parts opts' other made' in (r' ∙ sym r, c' ∙ sym c)
